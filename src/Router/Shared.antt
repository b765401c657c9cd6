-- ===== src/Router/Shared.antt =====
-- ton-client-util/src/service/shared.rs: the future of a request to a shared service.
use tonlibjson.Prelude.{
  ◌≡◌, refl, Bool, true, false, Option, none, some, List, [], ◌∷◌, if◌then◌else◌, inl, inr, ◌⊎◌,
}

-- The crate tower: a service `S` that turns a request `Q` into a future `F`.
pub data Ready (E : Type 0) : Type 0 where
  not_yet : Ready E
  done : Ready E
  broken : E → Ready E

pub data Polled (R E : Type 0) : Type 0 where
  pending : Polled R E
  answered : R → Polled R E
  failed : E → Polled R E

pub record Service (S Q F R E : Type 0) : Type 0 where
  pub poll_ready : S → S × Ready E
  pub call : S → Q → S × F
  pub poll_future : F → F × Polled R E

pub data ResponseState (F : Type 0) : Type 0 where
  locking : ResponseState F
  waiting : F → ResponseState F

pub record ResponseFuture (Q F : Type 0) : Type 0 where
  pub request : Option Q
  pub state : ResponseState F

Polled-cases :
    {R E : Type 0}
    → (a : Polled R E) → (a ≡ pending) ⊎ (((r : R) × (a ≡ answered r)) ⊎ ((e : E) × (a ≡ failed e)))
Polled-cases pending = inl refl
Polled-cases (answered r) = inr (inl (r, refl))
Polled-cases (failed e) = inr (inr (e, refl))

-- A poll leaves the service and the future, or panics since the request is gone.
pub data Outcome (S Q F R E : Type 0) : Type 0 where
  left : S → ResponseFuture Q F → Polled R E → Outcome S Q F R E
  polled_after_completion : Outcome S Q F R E

unfoldable pub new_future : {Q F : Type 0} → Q → ResponseFuture Q F
new_future q = record { request = some q; state = locking }

module _ {S Q F R E : Type 0} (service : Service S Q F R E) where
  unfoldable pub poll_waiting : S → Option Q → F → Outcome S Q F R E
  poll_waiting s request future =
      let (future', answer) = service.poll_future future in
      left s (record { request = request; state = waiting future' }) answer

  abbrev call_taken : S → Option Q → Outcome S Q F R E
  call_taken s none = polled_after_completion
  call_taken s (some q) = let (s', future) = service.call s q in poll_waiting s' none future

  abbrev when_ready : ResponseFuture Q F → S × Ready E → Outcome S Q F R E
  when_ready f (s, not_yet) = left s f pending
  when_ready f (s, broken e) = left s f (failed e)
  when_ready f (s, done) = call_taken s f.request

  abbrev poll_state : S → Bool → ResponseFuture Q F → ResponseState F → Outcome S Q F R E
  poll_state s free f (waiting future) = poll_waiting s f.request future
  poll_state s free f locking =
      if free then when_ready f (service.poll_ready s) else left s f pending

  -- `free` is whether the lock can be taken.
  unfoldable pub poll : S → Bool → ResponseFuture Q F → Outcome S Q F R E
  poll s free f = poll_state s free f f.state

  -- The polls of one future, while the service changes between them as `between` says.
  unfoldable pub poll_all : List (Bool × (S → S)) → S → ResponseFuture Q F → Outcome S Q F R E
  poll_all [] s f = left s f pending
  poll_all ((free, between) ∷ rest) s f = elim (poll (between s) free f) [
    | left s' f' answer ↦ elim answer [
      | pending ↦ poll_all rest s' f'
      | answered r ↦ left s' f' (answered r)
      | failed e ↦ left s' f' (failed e)
    ]
    | polled_after_completion ↦ polled_after_completion
  ]

  -- The request is there as long as the lock is awaited.
  abbrev pub IsLive : Option Q → ResponseState F → Type 0
  IsLive none locking = true ≡ false
  IsLive (some q) locking = true ≡ true
  IsLive request (waiting future) = true ≡ true

  abbrev pub Lives : Outcome S Q F R E → Type 0
  Lives o =
      (s : S) × (f : ResponseFuture Q F) × (a : Polled R E) × (o ≡ left s f a)
      × IsLive f.request f.state

  when_ready-Lives :
      (q : Q) (r : S × Ready E)
      → Lives (when_ready (record { request = some q; state = locking }) r)
  unfolding poll_waiting
  when_ready-Lives q (s, not_yet) = (s, _, pending, refl, refl)
  when_ready-Lives q (s, broken e) = (s, _, failed e, refl, refl)
  when_ready-Lives q (s, done) = (_, _, _, refl, refl)

  poll-Lives :
      (s : S) (free : Bool) (request : Option Q) (state : ResponseState F)
      → IsLive request state
      → Lives (poll s free (record { request = request; state = state }))
  unfolding poll poll_waiting
  poll-Lives s free none locking v = cc
  poll-Lives s free none (waiting future) v = (_, _, _, refl, refl)
  poll-Lives s free (some q) (waiting future) v = (_, _, _, refl, refl)
  poll-Lives s false (some q) locking v = (_, _, _, refl, refl)
  poll-Lives s true (some q) locking v = when_ready-Lives q (service.poll_ready s)

  poll_all-Lives :
      (es : List (Bool × (S → S))) (s : S) (f : ResponseFuture Q F)
      → IsLive f.request f.state
      → Lives (poll_all es s f)
  unfolding poll_all
  poll_all-Lives [] s f v = (s, f, pending, refl, v)
  poll_all-Lives ((free, between) ∷ es) s f v =
      let (s', f', a, e, v') = poll-Lives (between s) free f.request f.state v in
      elim (Polled-cases a) [
        | inl p ↦ rw (poll_all, e, p) (poll_all-Lives es s' f' v')
        | inr (inl (r, p)) ↦ (s', f', answered r, rw (poll_all, e, p), v')
        | inr (inr (x, p)) ↦ (s', f', failed x, rw (poll_all, e, p), v')
      ]

  -- However often it is polled, whoever holds the lock and whatever the service answers, the future of
  -- a request never panics for want of its request.
  pub new_future-Lives :
      (es : List (Bool × (S → S))) (s : S) (q : Q) → Lives (poll_all es s (new_future q))
  unfolding new_future
  new_future-Lives es s q = poll_all-Lives es s (new_future q) refl
