-- ===== src/Client/Answers.antt =====
-- The answers of ton-liteserver-client/src/client.rs reach the requests that they are for.
use tonlibjson.Prelude.{
  ℕ, ◌≡◌, refl, true, false, Option, none, some, List, [], ◌∷◌, ◌++◌, Bool-cases, inl, inr, All,
  ◌⊎◌,
}
use tonlibjson.Prelude.Words.{bytes_eq, bytes_eq_refl}
use tonlibjson.Prelude.Maps.{lookup, insert, remove, lookup-insert, lookup-remove}
use tonlibjson.Adnl.Crypto.{Sha256}
use tonlibjson.Adnl.Packet.{Packet, is_pong_packet}
use tonlibjson.Client.Actor.{
  AdnlMessageQuery, AdnlMessageAnswer, Messages, Event, cancelled, received, reading_error, query,
  tick, ClientActor, Running, running, deliver, on_answer, step, run, id_keys,
}

-- No answer with the id `i`, and no panic.
abbrev pub AnswerSpares : List ℕ → Option AdnlMessageAnswer → Type 0
AnswerSpares i none = true ≡ false
AnswerSpares i (some m) = bytes_eq m.query_id i ≡ false

module _ {O : Type 0} (sha : Sha256) (messages : Messages) where
  -- An event that keeps the task alive and is no query and no answer with the id `i`.
  abbrev pub Spares : List ℕ → Event O → Type 0
  Spares i cancelled = true ≡ false
  Spares i reading_error = true ≡ false
  Spares i (received p) =
      (is_pong_packet p ≡ true) ⊎ AnswerSpares i (messages.read_answer p.payload)
  Spares i (query q oneshot nonce) = bytes_eq q.query_id i ≡ false
  Spares i (tick nonce random_id) = true ≡ true

  -- The oneshot of the id `i` waits.
  abbrev Waits : List ℕ → O → Running O → Type 0
  Waits i o r = (a : ClientActor O) × (r ≡ running a) × (lookup id_keys i a.responses ≡ some o)

  on_answer-Waits :
      (a : ClientActor O) (i : List ℕ) (o : O) (m : Option AdnlMessageAnswer)
      → lookup id_keys i a.responses ≡ some o
      → AnswerSpares i m
      → Waits i o (on_answer sha messages a m)
  unfolding on_answer
  on_answer-Waits a i o none w s = cc
  on_answer-Waits a i o (some m) w s =
      (_, refl, rw (lookup-remove id_keys m.query_id i a.responses, s) w)

  step-Waits :
      (a : ClientActor O) (i : List ℕ) (o : O) (e : Event O)
      → lookup id_keys i a.responses ≡ some o
      → Spares i e
      → Waits i o (step sha messages a e)
  unfolding step
  step-Waits a i o cancelled w s = cc
  step-Waits a i o reading_error w s = cc
  step-Waits a i o (received p) w (inl h) = (a, rw h, w)
  step-Waits a i o (received p) w (inr h) = elim (Bool-cases (is_pong_packet p)) [
    | inl e ↦ (a, rw e, w)
    | inr e ↦ rw e (on_answer-Waits a i o (messages.read_answer p.payload) w h)
  ]
  step-Waits a i o (query q oneshot nonce) w s =
      (_, refl, rw (lookup-insert id_keys q.query_id i oneshot a.responses, s) w)
  step-Waits a i o (tick nonce random_id) w s = (_, refl, w)

  -- The task has answered `o` last, with `bytes`, and its id waits no more.
  abbrev pub Answers : List ℕ → O → List ℕ → Running O → Type 0
  Answers i o bytes r =
      (a : ClientActor O) × (before : List (O × List ℕ)) × (r ≡ running a)
      × (a.answered ≡ before ++ (o, bytes) ∷ [])
      × (lookup id_keys i a.responses ≡ none)

  answer_lem :
      (a : ClientActor O) (i : List ℕ) (o : O) (p : Packet) (m : AdnlMessageAnswer)
      → lookup id_keys i a.responses ≡ some o
      → is_pong_packet p ≡ false
      → messages.read_answer p.payload ≡ some m
      → m.query_id ≡ i
      → Answers i o m.answer (run sha messages a (received p ∷ []))
  unfolding run step on_answer deliver
  answer_lem a i o p m w pong read same =
      let there : lookup id_keys m.query_id a.responses ≡ some o = rw same w in
      let gone : lookup id_keys i (remove id_keys m.query_id a.responses) ≡ none =
        rw (lookup-remove id_keys m.query_id i a.responses, same, bytes_eq_refl i) in
      (
        record a {
          responses = remove id_keys m.query_id a.responses;
          answered = a.answered ++ (o, m.answer) ∷ [];
        },
        a.answered,
        rw (run, step, pong, read, there),
        refl,
        gone,
      )

  waiting-Answers :
      (a : ClientActor O) (i : List ℕ) (o : O) (es : List (Event O)) (p : Packet)
      (m : AdnlMessageAnswer)
      → lookup id_keys i a.responses ≡ some o
      → All (Spares i) es
      → is_pong_packet p ≡ false
      → messages.read_answer p.payload ≡ some m
      → m.query_id ≡ i
      → Answers i o m.answer (run sha messages a (es ++ received p ∷ []))
  unfolding run
  waiting-Answers a i o [] p m w s pong read same = answer_lem a i o p m w pong read same
  waiting-Answers a i o (e ∷ es) p m w (s, ss) pong read same =
      let (a', went, w') = step-Waits a i o e w s in
      rw (run, went) (waiting-Answers a' i o es p m w' ss pong read same)

  -- Whatever queries and answers with other ids, pongs and ticks come between, the answer with the id
  -- of a query goes to the oneshot of that query, and the id waits no more afterwards.
  pub query-Answers :
      (a : ClientActor O) (q : AdnlMessageQuery) (o : O) (nonce : List ℕ) (es : List (Event O))
      (p : Packet) (m : AdnlMessageAnswer)
      → All (Spares q.query_id) es
      → is_pong_packet p ≡ false
      → messages.read_answer p.payload ≡ some m
      → m.query_id ≡ q.query_id
      → Answers q.query_id o m.answer (run sha messages a (query q o nonce ∷ es ++ received p ∷ []))
  unfolding run step
  query-Answers a q o nonce es p m s pong read same =
      let put : lookup id_keys q.query_id (insert id_keys q.query_id o a.responses) ≡ some o =
        rw (bytes_eq_refl q.query_id) in
      waiting-Answers _ q.query_id o es p m put s pong read same
