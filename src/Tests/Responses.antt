-- ===== src/Tests/Responses.antt =====
-- The client of the library in C++ after two calls, one of which could not be sent.
use tonlibjson.Prelude.{
  ℕ, ◌≡◌, ◌≢◌, ◌⊎◌, inl, inr, refl, true, false, none, some, List, [], ◌∷◌, ◌==◌, Bool-cases, arith,
}
use mathlib.Core.List.{Mem}
use tonlibjson.Prelude.Maps.{lookup}
use tonlibjson.Json.Responses.{
  Response, Event, called, received, numbers, new, call, drop_sender, run, Reads, pending, expected,
  read_body, poll, put, receive,
}
use tonlibjson.Json.Pending.{Held, AllAllowed}
use tonlibjson.Json.Answered.{run-Answers}

abbrev response_7 : Response ℕ ℕ
response_7 = record { id = 7; body = 3 }

abbrev two_calls : List (Event ℕ ℕ)
two_calls = called 7 true ∷ called 9 false ∷ received response_7 ∷ []

abbrev reads_itself : Reads ℕ ℕ ℕ
reads_itself = record { is_error = λ d. d == 0; error_of = λ d. some d; response_of = λ d. some d }

polled_7 : poll reads_itself 0 (run numbers new two_calls) ≡ expected 3
unfolding poll run new call receive put numbers drop_sender read_body
polled_7 = refl

only_7 : (n i : ℕ) → lookup numbers n ((0, 7) ∷ []) ≡ some i → i ≢ 9
unfolding numbers
only_7 n i e x = elim (Bool-cases (numbers.same 0 n)) [
  | inl s ↦ let h : some 7 ≡ some i = rw s at e in let seven : 7 ≡ i = cc in omega (arith, seven, x)
  | inr s ↦ let bad : none ≡ some i = rw s at e in absurd cc
]

two_calls_allowed : AllAllowed numbers (λ id. id ≡ 9) new two_calls
unfolding new call numbers
two_calls_allowed = (
  (refl, (λ n i e x. let bad : none ≡ some i = e in absurd cc)),
  (((refl, only_7), refl), (tt, tt)),
)

run-Answers_example :
    ((n id : ℕ)
      → lookup numbers n (run numbers new two_calls).futures ≡ some id
      → (poll reads_itself n (run numbers new two_calls) ≡ pending)
        ⊎ ((r : Response ℕ ℕ) × Mem (received r) two_calls
            × (r.id ≡ id)
            × (poll reads_itself n (run numbers new two_calls) ≡ read_body reads_itself r.body)))
    × ((id n : ℕ)
        → lookup numbers id (run numbers new two_calls).responses ≡ some n
        → Held numbers (λ id. id ≡ 9) (run numbers new two_calls) id n)
run-Answers_example = run-Answers numbers (λ id. id ≡ 9) reads_itself two_calls two_calls_allowed
