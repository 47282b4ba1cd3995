-- ===== src/Invoice/Credit.antt =====
-- internal/invoice/credit.go: how much prepaid credit an invoice takes.
pub mod Bounds
use antitimely.Prelude.{Bool, if◌then◌else◌}
use antitimely.Prelude.Int.{ℤ, pos, ◌-₆₄◌, ltb_ℤ}

-- `ApplyCredit`
unfoldable pub apply_credit : ℤ → ℤ → ℤ → ℤ
apply_credit credit_cents line_total_cents goodwill_cents =
    let room = line_total_cents -₆₄ goodwill_cents in
    let room' = if ltb_ℤ room (pos 0) then pos 0 else room in
    let applied = if ltb_ℤ room' credit_cents then room' else credit_cents in
    if ltb_ℤ applied (pos 0) then pos 0 else applied
