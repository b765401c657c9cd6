-- ===== src/Client/Actor.antt =====
-- ton-liteserver-client/src/client.rs: the task that owns the connection, as a step on each event,
-- and the future of one request. Random values and the order of the events are inputs.
use tonlibjson.Prelude.{ℕ, Option, none, some, List, [], ◌∷◌, ◌++◌, if◌then◌else◌}
use tonlibjson.Prelude.Words.{bytes_eq, bytes_eq_refl, bytes_eq→eq}
use tonlibjson.Prelude.Maps.{Keys, lookup, insert, remove}
use tonlibjson.Adnl.Crypto.{Sha256}
use tonlibjson.Adnl.Packet.{Packet, new_packet, ping_packet, is_pong_packet}

abbrev pub id_keys : Keys (List ℕ)
id_keys = record { same = λ a b. bytes_eq a b; same_refl = bytes_eq_refl; same→eq = bytes_eq→eq }

-- The messages of the generated schema.
pub record AdnlMessageQuery : Type 0 where
  pub query_id : List ℕ
  pub query : List ℕ

pub record AdnlMessageAnswer : Type 0 where
  pub query_id : List ℕ
  pub answer : List ℕ

-- The generated writer and reader of the messages, as boxed bytes.
pub record Messages : Type 0 where
  pub write_query : AdnlMessageQuery → List ℕ
  pub read_answer : List ℕ → Option AdnlMessageAnswer

-- What the task waits for. A query comes with its oneshot and the nonce of its packet; a tick comes
-- with the nonce and the id of the ping.
pub data Event (O : Type 0) : Type 0 where
  cancelled : Event O
  received : Packet → Event O
  reading_error : Event O
  query : AdnlMessageQuery → O → List ℕ → Event O
  tick : List ℕ → ℕ → Event O

-- The map of responses, and what was sent to the oneshots and to the server, in order.
pub record ClientActor (O : Type 0) : Type 0 where
  pub responses : List (List ℕ × O)
  pub answered : List (O × List ℕ)
  pub sent : List Packet

-- The task goes on, or has ended or panicked.
pub data Running (O : Type 0) : Type 0 where
  running : ClientActor O → Running O
  ended : ClientActor O → Running O

module _ {O : Type 0} (sha : Sha256) (messages : Messages) where
  unfoldable pub deliver : ClientActor O → List ℕ → Option O → List (O × List ℕ)
  deliver a answer none = a.answered
  deliver a answer (some oneshot) = a.answered ++ (oneshot, answer) ∷ []

  -- `none` is the panic on bytes that are no answer.
  unfoldable pub on_answer : ClientActor O → Option AdnlMessageAnswer → Running O
  on_answer a none = ended a
  on_answer a (some m) = running (record a {
    responses = remove id_keys m.query_id a.responses;
    answered = deliver a m.answer (lookup id_keys m.query_id a.responses);
  })

  unfoldable pub step : ClientActor O → Event O → Running O
  step a cancelled = ended a
  step a reading_error = ended a
  step a (received packet) =
      if is_pong_packet packet then running a else on_answer a (messages.read_answer packet.payload)
  step a (query q oneshot nonce) = running (record a {
    responses = insert id_keys q.query_id oneshot a.responses;
    sent = a.sent ++ new_packet sha nonce (messages.write_query q) ∷ [];
  })
  step a (tick nonce random_id) =
      running (record a { sent = a.sent ++ ping_packet sha nonce random_id ∷ [] })

  unfoldable pub run : ClientActor O → List (Event O) → Running O
  run a [] = running a
  run a (e ∷ es) = elim (step a e) [ running a' ↦ run a' es | ended a' ↦ ended a' ]

-- The errors of a request.
pub data Error (L : Type 0) : Type 0 where
  lite_server_error : L → Error L
  deserialize : Error L
  channel_closed : Error L
  oneshot_closed : Error L
  elapsed : Error L
  connection : List ℕ → Error L

pub data Outcome (A B : Type 0) : Type 0 where
  ok : A → Outcome A B
  err : B → Outcome A B

-- What a oneshot gives when it is polled.
pub data Oneshot : Type 0 where
  waiting : Oneshot
  closed : Oneshot
  value : List ℕ → Oneshot

pub data ResponseState (L : Type 0) : Type 0 where
  failed : Option (Error L) → ResponseState L
  rx : ResponseState L

-- One poll: no answer yet, the result, or the panic of a future polled after its error.
pub data Polled (R L : Type 0) : Type 0 where
  pending : Polled R L
  ready : Outcome R (Error L) → Polled R L
  polled_after_error : Polled R L

module _ {R L D : Type 0} (read_response : List ℕ → Outcome (Outcome R L) D) where
  unfoldable pub convert : Outcome (Outcome R L) D → Outcome R (Error L)
  convert (err e) = err deserialize
  convert (ok (err e)) = err (lite_server_error e)
  convert (ok (ok response)) = ok response

  unfoldable pub poll : ResponseState L → Oneshot → ResponseState L × Polled R L
  poll (failed (some e)) oneshot = (failed none, ready (err e))
  poll (failed none) oneshot = (failed none, polled_after_error)
  poll rx waiting = (rx, pending)
  poll rx closed = (rx, ready (err oneshot_closed))
  poll rx (value bytes) = (rx, ready (convert (read_response bytes)))
