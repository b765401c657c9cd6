-- ===== src/Json/Pending.antt =====
-- In tonlibjson-client/src/client.rs every future waits for its own response, and no entry of the map
-- outlives its future.
use tonlibjson.Prelude.{
  ℕ, suc, ◌<◌, ◌≡◌, ◌≢◌, ◌⊎◌, inl, inr, refl, sym, ap, ◌∙◌, Bool, true, false, none, some, List, [],
  ◌∷◌, Option-cases, arith,
}
use mathlib.Core.Path.{subst}
use tonlibjson.Prelude.Maps.{
  Keys, lookup, insert, found_inserted, lookup-insert_other, lookup-insert_same, same-differs,
}
use tonlibjson.Json.Responses.{
  Response, Oneshot, waiting, sent, State, Event, called, received, dropped, numbers, put,
  drop_sender, call, step,
}

pub put_same : {I D : Type 0} (n : ℕ) (o : Oneshot I D) (f : ℕ → Oneshot I D) → put n o f n ≡ o
unfolding put
put_same n o f = rw (put, numbers.same_refl n)

pub put_other :
    {I D : Type 0} (n k : ℕ) (o : Oneshot I D) (f : ℕ → Oneshot I D) → n ≢ k → put n o f k ≡ f k
unfolding put
put_other n k o f h = rw (put, same-differs numbers n k h)

module _ {I D : Type 0} (ids : Keys I) where
  -- A future waits for a response with its id, or has it.
  abbrev pub Waits : State I D → ℕ → I → Type 0
  Waits s n id =
      ((s.oneshot n ≡ waiting) × (lookup ids id s.responses ≡ some n))
      ⊎ ((r : Response I D) × (s.oneshot n ≡ sent r) × (r.id ≡ id))

  -- A map entry is that of a future, or its request was not sent.
  abbrev pub Held : (I → Type 0) → State I D → I → ℕ → Type 0
  Held Unsent s id n =
      (lookup numbers n s.futures ≡ some id) ⊎ (Unsent id × (lookup numbers n s.futures ≡ none))

  pub record IsSound (Unsent : I → Type 0) (s : State I D) : Type 0 where
    pub waits : (n : ℕ) (id : I) → lookup numbers n s.futures ≡ some id → Waits s n id
    pub held : (id : I) (n : ℕ) → lookup ids id s.responses ≡ some n → Held Unsent s id n
    pub called_before : (n : ℕ) (id : I) → lookup numbers n s.futures ≡ some id → n < s.next
    pub entered_before : (id : I) (n : ℕ) → lookup ids id s.responses ≡ some n → n < s.next
    pub own_id :
        (m n : ℕ) (id : I)
        → lookup numbers m s.futures ≡ some id
        → lookup numbers n s.futures ≡ some id
        → m ≡ n

  -- A new id is in use neither in the map nor by a future.
  abbrev pub IsFresh : State I D → I → Type 0
  IsFresh s id =
      (lookup ids id s.responses ≡ none)
      × ((n : ℕ) (i : I) → lookup numbers n s.futures ≡ some i → i ≢ id)

  abbrev pub Allowed : (I → Type 0) → State I D → Event I D → Type 0
  Allowed Unsent s (called id true) = IsFresh s id
  Allowed Unsent s (called id false) = IsFresh s id × Unsent id
  Allowed Unsent s (received r) = Unit
  Allowed Unsent s (dropped n) = Unit

  abbrev pub AllAllowed : (I → Type 0) → State I D → List (Event I D) → Type 0
  AllAllowed Unsent s [] = Unit
  AllAllowed Unsent s (e ∷ es) = Allowed Unsent s e × AllAllowed Unsent (step ids s e) es

  pub Waits-kept :
      (s s' : State I D) (n : ℕ) (i : I)
      → s'.oneshot n ≡ s.oneshot n
      → (lookup ids i s.responses ≡ some n → lookup ids i s'.responses ≡ some n)
      → Waits s n i
      → Waits s' n i
  Waits-kept s s' n i e f (inl (w, l)) = inl (e ∙ w, f l)
  Waits-kept s s' n i e f (inr (r, o, x)) = inr (r, e ∙ o, x)

  call_other :
      (s : State I D) (id : I) (b : Bool) (n : ℕ)
      → lookup ids id s.responses ≡ none
      → s.next ≢ n
      → (call ids id b s).oneshot n ≡ s.oneshot n
  unfolding call drop_sender
  call_other s id b n e k =
      rw (put_other s.next n waiting (drop_sender (lookup ids id s.responses) s.oneshot) k, e)

  module _ (Unsent : I → Type 0) (s : State I D) (h : IsSound Unsent s) where
    not_next : (n : ℕ) → n < s.next → s.next ≢ n
    not_next n l e = omega (arith, l, e)

    next_free : lookup numbers s.next s.futures ≡ none
    next_free = elim (Option-cases (lookup numbers s.next s.futures)) [
      | inl e ↦ e
      | inr (i, e) ↦ absurd (not_next s.next (h.called_before s.next i e) refl)
    ]

    call-Waits_old :
        (id : I) (b : Bool)
        → IsFresh s id
        → (n : ℕ) (i : I) → lookup numbers n s.futures ≡ some i
        → Waits (call ids id b s) n i
    unfolding call
    call-Waits_old id b (free, new_id) n i e =
        Waits-kept s (call ids id b s) n i
          (call_other s id b n free (not_next n (h.called_before n i e)))
          (λ l. lookup-insert_other ids id i s.next s.responses (λ x. new_id n i e (sym x)) ∙ l)
          (h.waits n i e)

    call-Waits :
        (id : I)
        → IsFresh s id
        → (n : ℕ) (i : I) → lookup numbers n (insert numbers s.next id s.futures) ≡ some i
        → Waits (call ids id true s) n i
    unfolding call
    call-Waits id f n i e = elim (found_inserted numbers s.next n id i s.futures e) [
      | inl (at_n, is_id) ↦
          subst (λ k. Waits (call ids id true s) k i) at_n
            (subst (λ j. Waits (call ids id true s) s.next j) is_id
              (inl (put_same s.next waiting _, lookup-insert_same ids id s.next s.responses)))
      | inr (other, e') ↦ call-Waits_old id true f n i e'
    ]

    call-Held :
        (id : I)
        → (j : I) (m : ℕ) → lookup ids j (insert ids id s.next s.responses) ≡ some m
        → Held Unsent (call ids id true s) j m
    unfolding call
    call-Held id j m e = elim (found_inserted ids id j s.next m s.responses e) [
      | inl (is_id, at_m) ↦ inl (
          subst (λ k. lookup numbers k (insert numbers s.next id s.futures) ≡ some j) at_m
            (lookup-insert_same numbers s.next id s.futures ∙ ap (λ x. some x) is_id))
      | inr (other, e') ↦
          let kept =
            lookup-insert_other numbers s.next m id s.futures
              (not_next m (h.entered_before j m e')) in
          elim (h.held j m e') [ inl l ↦ inl (kept ∙ l) | inr (u, l) ↦ inr (u, kept ∙ l) ]
    ]

    call-Held_unsent :
        (id : I)
        → Unsent id
        → (j : I) (m : ℕ) → lookup ids j (insert ids id s.next s.responses) ≡ some m
        → Held Unsent (call ids id false s) j m
    unfolding call
    call-Held_unsent id u j m e = elim (found_inserted ids id j s.next m s.responses e) [
      | inl (is_id, at_m) ↦
          inr (subst Unsent is_id u, subst (λ k. lookup numbers k s.futures ≡ none) at_m next_free)
      | inr (other, e') ↦ h.held j m e'
    ]

    entered :
        (id j : I) (m : ℕ)
        → lookup ids j (insert ids id s.next s.responses) ≡ some m
        → m < suc s.next
    entered id j m e = elim (found_inserted ids id j s.next m s.responses e) [
      | inl (x, at_m) ↦ omega (arith, at_m)
      | inr (x, e') ↦ omega (arith, h.entered_before j m e')
    ]

    call-own_id :
        (id : I)
        → IsFresh s id
        → (m n : ℕ) (i : I) → lookup numbers m (insert numbers s.next id s.futures) ≡ some i
        → lookup numbers n (insert numbers s.next id s.futures) ≡ some i
        → m ≡ n
    call-own_id id (free, new_id) m n i e f =
        elim (found_inserted numbers s.next m id i s.futures e) [
          | inl (at_m, is_id) ↦ elim (found_inserted numbers s.next n id i s.futures f) [
            | inl (at_n, x) ↦ sym at_m ∙ at_n
            | inr (x, f') ↦ absurd (new_id n i f' (sym is_id))
          ]
          | inr (x, e') ↦ elim (found_inserted numbers s.next n id i s.futures f) [
            | inl (at_n, is_id) ↦ absurd (new_id m i e' (sym is_id))
            | inr (y, f') ↦ h.own_id m n i e' f'
          ]
        ]

    pub call-IsSound : (id : I) → IsFresh s id → IsSound Unsent (call ids id true s)
    unfolding call
    call-IsSound id f = record {
      waits = call-Waits id f;
      held = call-Held id;
      called_before = λ n i e. elim (found_inserted numbers s.next n id i s.futures e) [
        | inl (at_n, x) ↦ omega (arith, at_n)
        | inr (x, e') ↦ omega (arith, h.called_before n i e')
      ];
      entered_before = entered id;
      own_id = call-own_id id f;
    }

    pub unsent-IsSound : (id : I) → IsFresh s id → Unsent id → IsSound Unsent (call ids id false s)
    unfolding call
    unsent-IsSound id f u = record {
      waits = call-Waits_old id false f;
      held = call-Held_unsent id u;
      called_before = λ n i e. omega (arith, h.called_before n i e);
      entered_before = entered id;
      own_id = h.own_id;
    }
