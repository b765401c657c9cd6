-- ===== src/Ton/Retry.antt =====
-- tonlibjson-client/src/retry.rs: which requests are tried again, and at whose cost.
use tonlibjson.Prelude.{ℕ, suc, Bool, false, Option, none, some, List, [], ◌∷◌, if◌then◌else◌}
use tonlibjson.Blocks.Search.{Answer, ok, err}

-- The budget of the crate tower: a deposit, and a withdrawal that it grants or not.
pub record Budget (B : Type 0) : Type 0 where
  pub deposit : B → B
  pub withdraw : B → B × Bool

-- The two requests that have a policy of their own, and all others.
pub data Retried (Q : Type 0) : Type 0 where
  raw_send_message : Retried Q
  raw_send_message_return_hash : Retried Q
  request : Q → Retried Q

unfoldable pub clone_request : {Q : Type 0} → Retried Q → Option (Retried Q)
clone_request raw_send_message = none
clone_request raw_send_message_return_hash = none
clone_request (request q) = some (request q)

-- `is_route_unknown` is the downcast of an error of any type.
module _ {B Q R E : Type 0} (budget : Budget B) (is_route_unknown : E → Bool) where
  -- The budget afterwards, and whether the request is tried again.
  unfoldable pub retry : Retried Q → B → Answer R E → B × Bool
  retry raw_send_message b result = (b, false)
  retry raw_send_message_return_hash b result = (b, false)
  retry (request q) b (ok res) = (budget.deposit b, false)
  retry (request q) b (err e) =
      let withdrawn = budget.withdraw b in if is_route_unknown e then (b, false) else withdrawn

  -- The retries that a list of results leads to.
  abbrev pub retries : B → List (Retried Q × Answer R E) → ℕ
  retries b [] = 0
  retries b ((q, result) ∷ results) =
      let (b', again) = retry q b result in
      let rest = retries b' results in if again then suc rest else rest
