-- ===== src/Json/Received.antt =====
-- In tonlibjson-client/src/client.rs a oneshot holds nothing but a response that came.
use tonlibjson.Prelude.{ℕ, ◌≡◌, refl, Option, none, some, List, [], ◌∷◌, Bool-cases, inl, inr}
use tonlibjson.Prelude.Maps.{Keys, lookup}
use tonlibjson.Json.Responses.{
  Response, Oneshot, waiting, sent, closed, State, Event, called, received, dropped, numbers, put,
  close, drop_sender, new, deliver, call, receive, forget, drop_future, step, run,
}
use mathlib.Core.Path.{subst}
use mathlib.Core.List.{Mem, mem-cons_self, mem-cons_of_mem}

module _ {I D : Type 0} (P : Response I D → Type 0) where
  -- Every response in these oneshots is one of `P`.
  abbrev Holds : (ℕ → Oneshot I D) → Type 0
  Holds oneshot = (n : ℕ) (r : Response I D) → oneshot n ≡ sent r → P r

  put-Holds :
      (n : ℕ) (o : Oneshot I D) (oneshot : ℕ → Oneshot I D)
      → Holds oneshot
      → ((r : Response I D) → o ≡ sent r → P r)
      → Holds (put n o oneshot)
  unfolding put
  put-Holds n o oneshot h new k r e = elim (Bool-cases (numbers.same n k)) [
    | inl same ↦ new r (rw same at e)
    | inr other ↦ h k r (rw other at e)
  ]

  close_sent : (o : Oneshot I D) (r : Response I D) → close o ≡ sent r → o ≡ sent r
  close_sent waiting r e = absurd cc
  close_sent (sent s) r e = e
  close_sent closed r e = absurd cc

  drop_sender-Holds :
      (found : Option ℕ) (oneshot : ℕ → Oneshot I D)
      → Holds oneshot
      → Holds (drop_sender found oneshot)
  unfolding drop_sender
  drop_sender-Holds none oneshot h = h
  drop_sender-Holds (some n) oneshot h =
      put-Holds n (close (oneshot n)) oneshot h (λ r e. h n r (close_sent (oneshot n) r e))

  sent_eq : {r s : Response I D} → sent r ≡ sent s → r ≡ s
  sent_eq e = cc

  deliver-Holds :
      (r : Response I D) (found : Option ℕ) (oneshot : ℕ → Oneshot I D)
      → P r
      → Holds oneshot
      → Holds (deliver r found oneshot)
  deliver-Holds r none oneshot p h = h
  deliver-Holds r (some n) oneshot p h =
      put-Holds n (sent r) oneshot h (λ s e. subst P (sent_eq e) p)

  module _ (ids : Keys I) where
    forget-Holds :
        (s : State I D) (n : ℕ) (found : Option I)
        → Holds s.oneshot
        → Holds (forget ids s n found).oneshot
    forget-Holds s n none h = h
    forget-Holds s n (some id) h = drop_sender-Holds (lookup ids id s.responses) s.oneshot h

    step-Holds :
        (s : State I D) (e : Event I D)
        → ((r : Response I D) → e ≡ received r → P r)
        → Holds s.oneshot
        → Holds (step ids s e).oneshot
    unfolding call receive drop_future
    step-Holds s (called id is_sent) came h =
        put-Holds s.next waiting _ (drop_sender-Holds (lookup ids id s.responses) s.oneshot h)
          (λ r e. absurd cc)
    step-Holds s (received r) came h =
        deliver-Holds r (lookup ids r.id s.responses) s.oneshot (came r refl) h
    step-Holds s (dropped n) came h = forget-Holds s n (lookup numbers n s.futures) h

    run-Holds :
        (s : State I D) (es : List (Event I D))
        → ((r : Response I D) → Mem (received r) es → P r)
        → Holds s.oneshot
        → Holds (run ids s es).oneshot
    unfolding run
    run-Holds s [] came h = h
    run-Holds s (e ∷ es) came h =
        run-Holds (step ids s e) es (λ r m. came r (mem-cons_of_mem e m))
          (step-Holds s e (λ r x. came r (subst (λ a. Mem a (e ∷ es)) x mem-cons_self)) h)

-- After any events, a response that is in a oneshot is one of those that came.
pub run-oneshot :
    {I D : Type 0} (ids : Keys I) (es : List (Event I D)) (n : ℕ) (r : Response I D)
    → (run ids new es).oneshot n ≡ sent r
    → Mem (received r) es
unfolding new
run-oneshot ids es n r e =
    run-Holds (λ r. Mem (received r) es) ids new es (λ r m. m) (λ n r e. absurd cc) n r e
