-- ===== src/Json/Responses.antt =====
-- tonlibjson-client/src/client.rs: the requests that wait for their responses. A call and its future
-- share a oneshot, which has the number of the call.
use tonlibjson.Prelude.{
  ℕ, suc, refl, Bool, Option, none, some, List, [], ◌∷◌, ◌==◌, ==_iff, if◌then◌else◌,
}
use tonlibjson.Prelude.Maps.{Keys, lookup, remove, insert}

pub record Response (I D : Type 0) : Type 0 where
  pub id : I
  pub body : D

-- A oneshot: nothing was sent, a response was, or its sender is gone.
pub data Oneshot (I D : Type 0) : Type 0 where
  waiting : Oneshot I D
  sent : Response I D → Oneshot I D
  closed : Oneshot I D

-- The map of the senders, the oneshots, the number of the next call, and the futures that are alive.
pub record State (I D : Type 0) : Type 0 where
  pub responses : List (I × ℕ)
  pub oneshot : ℕ → Oneshot I D
  pub next : ℕ
  pub futures : List (ℕ × I)

-- A call whose request is sent or not, a packet that is a response, and the drop of a future.
pub data Event (I D : Type 0) : Type 0 where
  called : I → Bool → Event I D
  received : Response I D → Event I D
  dropped : ℕ → Event I D

unfoldable pub numbers : Keys ℕ
numbers = record {
  same = ◌==◌;
  same_refl = λ k. (==_iff k k).1 refl;
  same→eq = λ j k e. (==_iff j k).0 e;
}

module _ {I D : Type 0} where
  unfoldable pub put : ℕ → Oneshot I D → (ℕ → Oneshot I D) → ℕ → Oneshot I D
  put n o oneshots k = if numbers.same n k then o else oneshots k

  -- A sender that is dropped before it sends closes its oneshot.
  abbrev pub close : Oneshot I D → Oneshot I D
  close waiting = closed
  close (sent r) = sent r
  close closed = closed

  unfoldable pub drop_sender : Option ℕ → (ℕ → Oneshot I D) → ℕ → Oneshot I D
  drop_sender none oneshots = oneshots
  drop_sender (some n) oneshots = put n (close (oneshots n)) oneshots

  abbrev pub deliver : Response I D → Option ℕ → (ℕ → Oneshot I D) → ℕ → Oneshot I D
  deliver r none oneshots = oneshots
  deliver r (some n) oneshots = put n (sent r) oneshots

  unfoldable pub new : State I D
  new = record { responses = []; oneshot = λ n. waiting; next = 0; futures = [] }

module _ {I D : Type 0} (ids : Keys I) where
  -- The sender is in the map before the request is sent, and stays there when that fails; the oneshot
  -- of a map entry that is replaced is closed.
  unfoldable pub call : I → Bool → State I D → State I D
  call id is_sent s = record {
    responses = insert ids id s.next s.responses;
    oneshot = put s.next waiting (drop_sender (lookup ids id s.responses) s.oneshot);
    next = suc s.next;
    futures = if is_sent then insert numbers s.next id s.futures else s.futures;
  }

  unfoldable pub receive : Response I D → State I D → State I D
  receive r s = record s {
    responses = remove ids r.id s.responses;
    oneshot = deliver r (lookup ids r.id s.responses) s.oneshot;
  }

  abbrev pub forget : State I D → ℕ → Option I → State I D
  forget s n none = s
  forget s n (some id) = record s {
    responses = remove ids id s.responses;
    oneshot = drop_sender (lookup ids id s.responses) s.oneshot;
    futures = remove numbers n s.futures;
  }

  unfoldable pub drop_future : ℕ → State I D → State I D
  drop_future n s = forget s n (lookup numbers n s.futures)

  abbrev pub step : State I D → Event I D → State I D
  step s (called id is_sent) = call id is_sent s
  step s (received r) = receive r s
  step s (dropped n) = drop_future n s

  unfoldable pub run : State I D → List (Event I D) → State I D
  run s [] = s
  run s (e ∷ es) = run (step s e) es

-- What a poll gives. `expected` is the response of the type that the request names.
pub data Polled (R E : Type 0) : Type 0 where
  pending : Polled R E
  expected : R → Polled R E
  ton_error : E → Polled R E
  malformed : Polled R E
  oneshot_closed : Polled R E

-- `serde_json` on the body of a response.
pub record Reads (D R E : Type 0) : Type 0 where
  pub is_error : D → Bool
  pub error_of : D → Option E
  pub response_of : D → Option R

module _ {D R E : Type 0} (reads : Reads D R E) where
  abbrev pub or_malformed {ℓ} : {A : Type ℓ} → (A → Polled R E) → Option A → Polled R E
  or_malformed f none = malformed
  or_malformed f (some a) = f a

  unfoldable pub read_body : D → Polled R E
  read_body body =
      if reads.is_error body
      then or_malformed (λ e. ton_error e) (reads.error_of body)
      else or_malformed (λ r. expected r) (reads.response_of body)

  abbrev pub poll_oneshot : {I : Type 0} → Oneshot I D → Polled R E
  poll_oneshot waiting = pending
  poll_oneshot (sent r) = read_body r.body
  poll_oneshot closed = oneshot_closed

  unfoldable pub poll : {I : Type 0} → ℕ → State I D → Polled R E
  poll n s = poll_oneshot (s.oneshot n)
