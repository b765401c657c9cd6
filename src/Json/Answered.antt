-- ===== src/Json/Answered.antt =====
-- In tonlibjson-client/src/client.rs a response goes to the future with its id, and a future that is
-- dropped takes its entry of the map with it.
use tonlibjson.Prelude.{
  ℕ, ◌≡◌, ◌≢◌, ◌⊎◌, inl, inr, refl, sym, ap, ◌∙◌, true, false, Option, none, some, List, [], ◌∷◌,
  Bool-cases,
}
use tonlibjson.Prelude.Maps.{
  Keys, lookup, remove, not_same, lookup-remove_absent, found_kept, lookup-remove_other,
}
use tonlibjson.Json.Responses.{
  Response, sent, State, Event, called, received, dropped, numbers, put, drop_sender, new, deliver,
  receive, forget, drop_future, step, run, Reads, pending, read_body, poll, poll_oneshot,
}
use mathlib.Core.List.{Mem}
use tonlibjson.Json.Received.{run-oneshot}
use tonlibjson.Json.Pending.{
  Waits, Held, IsSound, Allowed, AllAllowed, put_same, put_other, Waits-kept, call-IsSound,
  unsent-IsSound,
}

some_eq : {A : Type 0} {a b : A} → some a ≡ some b → a ≡ b
some_eq e = cc

none_some : {A B : Type 0} {a : A} → none ≡ some a → B
none_some e = absurd cc

module _ {I D : Type 0} (ids : Keys I) (Unsent : I → Type 0) (s : State I D)
    (h : IsSound ids Unsent s) where
  -- The future of the entry that a response finds has the response's id.
  finds_own :
      (r : Response I D) (n : ℕ) (i : I)
      → lookup numbers n s.futures ≡ some i
      → lookup ids r.id s.responses ≡ some n
      → r.id ≡ i
  finds_own r n i e l = elim (h.held r.id n l) [
    | inl own ↦ some_eq (sym own ∙ e)
    | inr (u, free) ↦ none_some (sym free ∙ e)
  ]

  abbrev after_response : Response I D → Option ℕ → State I D
  after_response r found = record s {
    responses = remove ids r.id s.responses;
    oneshot = deliver r found s.oneshot;
  }

  abbrev after_drop : ℕ → I → Option ℕ → State I D
  after_drop n id found = record s {
    responses = remove ids id s.responses;
    oneshot = drop_sender found s.oneshot;
    futures = remove numbers n s.futures;
  }

  receive-Waits :
      (r : Response I D) (found : Option ℕ) (n : ℕ) (i : I)
      → lookup ids r.id s.responses ≡ found
      → lookup numbers n s.futures ≡ some i
      → Waits ids (after_response r found) n i
  receive-Waits r none n i f e =
      Waits-kept ids s (after_response r none) n i refl
        (λ l.
          lookup-remove_other ids r.id i s.responses
            (λ x. none_some (sym f ∙ ap (λ j. lookup ids j s.responses) x ∙ l))
          ∙ l)
        (h.waits n i e)
  receive-Waits r (some m) n i f e = elim (Bool-cases (numbers.same m n)) [
    | inl same ↦
        let here = numbers.same→eq m n same in
        inr (
          r,
          ap (λ k. put k (sent r) s.oneshot n) here ∙ put_same n (sent r) s.oneshot,
          finds_own r n i e (f ∙ ap (λ k. some k) here),
        )
    | inr other ↦
        let differ : m ≢ n = not_same numbers m n other in
        Waits-kept ids s (after_response r (some m)) n i (put_other m n (sent r) s.oneshot differ)
          (λ l.
            lookup-remove_other ids r.id i s.responses
              (λ x. differ (some_eq (sym f ∙ ap (λ j. lookup ids j s.responses) x ∙ l)))
            ∙ l)
          (h.waits n i e)
  ]

  pub receive-IsSound : (r : Response I D) → IsSound ids Unsent (receive ids r s)
  unfolding receive
  receive-IsSound r = record {
    waits = λ n i e. receive-Waits r (lookup ids r.id s.responses) n i refl e;
    held = λ i n e. h.held i n (found_kept ids r.id i n s.responses e).1;
    called_before = h.called_before;
    entered_before = λ i n e. h.entered_before i n (found_kept ids r.id i n s.responses e).1;
    own_id = h.own_id;
  }

  drop-oneshot :
      (id : I) (found : Option ℕ) (k : ℕ) (i : I)
      → lookup ids id s.responses ≡ found
      → lookup numbers k s.futures ≡ some i
      → id ≢ i
      → drop_sender found s.oneshot k ≡ s.oneshot k
  unfolding drop_sender
  drop-oneshot id none k i f e n = refl
  drop-oneshot id (some m) k i f e n = put_other m k _ s.oneshot (λ x. elim (h.held id m f) [
    | inl own ↦ n (some_eq (sym own ∙ ap (λ j. lookup numbers j s.futures) x ∙ e))
    | inr (u, free) ↦ none_some (sym free ∙ ap (λ j. lookup numbers j s.futures) x ∙ e)
  ])

  drop-Held :
      (n : ℕ) (id j : I) (m : ℕ)
      → lookup numbers n s.futures ≡ some id
      → lookup ids j (remove ids id s.responses) ≡ some m
      → (lookup numbers m (remove numbers n s.futures) ≡ some j)
        ⊎ (Unsent j × (lookup numbers m (remove numbers n s.futures) ≡ none))
  drop-Held n id j m e f =
      let (other, f') = found_kept ids id j m s.responses f in
      elim (h.held j m f') [
        | inl own ↦ inl (
            lookup-remove_other numbers n m s.futures
              (λ x. other (some_eq (sym e ∙ ap (λ k. lookup numbers k s.futures) x ∙ own)))
            ∙ own)
        | inr (u, free) ↦ inr (u, lookup-remove_absent numbers n m s.futures free)
      ]

  drop-Waits :
      (n : ℕ) (id : I) (found : Option ℕ)
      → lookup numbers n s.futures ≡ some id
      → lookup ids id s.responses ≡ found
      → (k : ℕ) (i : I) → lookup numbers k (remove numbers n s.futures) ≡ some i
      → Waits ids (after_drop n id found) k i
  drop-Waits n id found e f k i g =
      let (other, g') = found_kept numbers n k i s.futures g in
      let new_id : id ≢ i = λ x. other (h.own_id n k i (e ∙ ap (λ j. some j) x) g') in
      Waits-kept ids s (after_drop n id found) k i (drop-oneshot id found k i f g' new_id)
        (λ l. lookup-remove_other ids id i s.responses new_id ∙ l) (h.waits k i g')

  forget-IsSound :
      (n : ℕ) (found : Option I)
      → lookup numbers n s.futures ≡ found
      → IsSound ids Unsent (forget ids s n found)
  forget-IsSound n none e = h
  forget-IsSound n (some id) e = record {
    waits = drop-Waits n id (lookup ids id s.responses) e refl;
    held = λ j m f. drop-Held n id j m e f;
    called_before = λ k i f. h.called_before k i (found_kept numbers n k i s.futures f).1;
    entered_before = λ i k f. h.entered_before i k (found_kept ids id i k s.responses f).1;
    own_id = λ m k i f g.
        h.own_id m k i (found_kept numbers n m i s.futures f).1
          (found_kept numbers n k i s.futures g).1;
  }

  drop_future-IsSound : (n : ℕ) → IsSound ids Unsent (drop_future ids n s)
  unfolding drop_future
  drop_future-IsSound n = forget-IsSound n (lookup numbers n s.futures) refl

  step-IsSound : (e : Event I D) → Allowed ids Unsent s e → IsSound ids Unsent (step ids s e)
  step-IsSound (called id true) a = call-IsSound ids Unsent s h id a
  step-IsSound (called id false) (a, u) = unsent-IsSound ids Unsent s h id a u
  step-IsSound (received r) a = receive-IsSound r
  step-IsSound (dropped n) a = drop_future-IsSound n

module _ {I D : Type 0} (ids : Keys I) (Unsent : I → Type 0) where
  new-IsSound : IsSound ids Unsent (new {I = I} {D = D})
  unfolding new
  new-IsSound = record {
    waits = λ n i e. none_some e;
    held = λ i n e. none_some e;
    called_before = λ n i e. none_some e;
    entered_before = λ i n e. none_some e;
    own_id = λ m n i e. none_some e;
  }

  run-IsSound :
      (s : State I D) (es : List (Event I D))
      → IsSound ids Unsent s
      → AllAllowed ids Unsent s es
      → IsSound ids Unsent (run ids s es)
  unfolding run
  run-IsSound s [] h a = h
  run-IsSound s (e ∷ es) h (a, rest) =
      run-IsSound (step ids s e) es (step-IsSound ids Unsent s h e a) rest

  module _ {R E : Type 0} (reads : Reads D R E) where
    polls :
        (es : List (Event I D)) (n : ℕ) (id : I)
        → Waits ids (run ids new es) n id
        → (poll reads n (run ids new es) ≡ pending)
          ⊎ ((r : Response I D) × Mem (received r) es
              × (r.id ≡ id)
              × (poll reads n (run ids new es) ≡ read_body reads r.body))
    unfolding poll
    polls es n id (inl (w, l)) = inl (ap (poll_oneshot reads) w)
    polls es n id (inr (r, o, e)) = inr (r, run-oneshot ids es n r o, e, ap (poll_oneshot reads) o)

    -- After any calls, responses and drops in any order, a future that is alive waits, or gives what is
    -- read of a response that came and has the id of its own request: it never finds its oneshot closed. And a map
    -- entry is that of a future that is alive, or of a request that could not be sent. The ids of the
    -- calls are new: none is in the map or with a future that is alive.
    pub run-Answers :
        (es : List (Event I D))
        → AllAllowed ids Unsent new es
        → ((n : ℕ) (id : I)
            → lookup numbers n (run ids new es).futures ≡ some id
            → (poll reads n (run ids new es) ≡ pending)
              ⊎ ((r : Response I D) × Mem (received r) es
                  × (r.id ≡ id)
                  × (poll reads n (run ids new es) ≡ read_body reads r.body)))
          × ((id : I) (n : ℕ)
              → lookup ids id (run ids new es).responses ≡ some n
              → Held ids Unsent (run ids new es) id n)
    run-Answers es a =
        let h = run-IsSound new es new-IsSound a in
        ((λ n id e. polls es n id (h.waits n id e)), h.held)
