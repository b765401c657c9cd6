-- ===== src/Tests/Retries.antt =====
-- Retries on a budget of three tokens.
use tonlibjson.Prelude.{ℕ, zero, suc, ◌+◌, ◌≡◌, refl, Bool, true, false, List, [], ◌∷◌, ◌==◌}
use tonlibjson.Blocks.Search.{Answer, ok, err}
use tonlibjson.Ton.Retry.{Budget, Retried, raw_send_message, request, retry, retries}

abbrev taken : ℕ → ℕ × Bool
taken zero = (0, false)
taken (suc n) = (n, true)

abbrev counter : Budget ℕ
counter = record { deposit = λ n. n + 1; withdraw = taken }

-- An error of a server, a message that fails, an answer, and a request without a route (error 1).
abbrev results : List (Retried ℕ × Answer ℕ ℕ)
results =
    (request 5, err 0) ∷ (raw_send_message, err 0) ∷ (request 5, ok 4) ∷ (request 6, err 1) ∷ []

retries_run : retries {R = ℕ} counter (λ e. e == 1) 3 results ≡ 1
unfolding retry
retries_run = refl
