-- ===== src/Invoice/Ledger/Periods.antt =====
-- What a range of time bills.
use antitimely.Prelude.{ℕ, ◌+◌, ◌≤◌, ◌≡◌, refl, Bool, true, ◌&&◌, List, [], ◌∷◌, ltb, leb, arith}
use antitimely.Store.Tables.{Tick}
use antitimely.Invoice.Ledger.{
  billed_seconds, has_second, count_distinct, count_ticks_for_company_in_range,
}

abbrev within : ℕ → ℕ → ℕ → Bool
within from to x = leb from x && ltb x to

-- Whether a second is billed at all does not depend on the range that it is in.
has_second-billed :
    (bills : ℕ → Bool) (from to from' to' x : ℕ) (ticks : List Tick)
    → within from to x ≡ true
    → within from' to' x ≡ true
    → has_second x (billed_seconds bills from to ticks)
      ≡ has_second x (billed_seconds bills from' to' ticks)
unfolding billed_seconds has_second
has_second-billed bills from to from' to' x [] h h' = refl
has_second-billed bills from to from' to' x (t ∷ ticks) h h' =
    let ih = has_second-billed bills from to from' to' x ticks h h' in ground arith

-- Where a range is cut in two, the ticks of both parts add up to the ticks of the whole: an hour
-- that borders on the cut is billed once, in one of the parts.
pub count_ticks-cut :
    (bills : ℕ → Bool) (from cut to : ℕ) (ticks : List Tick)
    → from ≤ cut
    → cut ≤ to
    → count_ticks_for_company_in_range bills from to ticks
      ≡ count_ticks_for_company_in_range bills from cut ticks
        + count_ticks_for_company_in_range bills cut to ticks
unfolding count_ticks_for_company_in_range billed_seconds count_distinct
count_ticks-cut bills from cut to [] h k = refl
count_ticks-cut bills from cut to (t ∷ ticks) h k =
    let ih = count_ticks-cut bills from cut to ticks h k in
    let low = has_second-billed bills from to from cut t.ts ticks in
    let high = has_second-billed bills from to cut to t.ts ticks in ground arith
