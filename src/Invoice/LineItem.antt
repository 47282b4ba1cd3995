-- ===== src/Invoice/LineItem.antt =====
-- internal/invoice/lineitem.go: the billed quantity and its total, in float64 as the source computes
-- them. The numbers stay far from the smallest and the largest doubles, so no exponent is bounded.
use antitimely.Prelude.{ℕ, zero, suc, ◌+◌, ◌*◌, ◌/◌, ◌%◌, ◌^◌, ltb, leb, ◌==◌, if◌then◌else◌}
use antitimely.Prelude.Int.{ℤ, pos, negsuc, sub_ℕ, times_ℤ, wrap64}

pub data BillingMode : Type 0 where
  not_billable hourly monthly_fixed : BillingMode

pub record LineItem : Type 0 where
  pub quantity_hours_times_100 : ℤ
  pub unit_cents : ℤ
  pub total_cents : ℤ

-- The nearest whole number to num / den, and of two equally near the even one.
unfoldable pub round_to_even : ℕ → ℕ → ℕ
round_to_even num den =
    let q = num / den in
    let r = num % den in
    if ltb (2 * r) den
    then q
    else if ltb den (2 * r)
    then q + 1
    else if q % 2 == 0
    then q
    else q + 1

-- The double num / den, whose den is a power of two.
pub record Double : Type 0 where
  pub num : ℕ
  pub den : ℕ

-- Doubled until it has 53 bits, and rounded. `up` counts the doublings.
scale_up : ℕ → ℕ → ℕ → ℕ → Double
unfolding round_to_even
scale_up zero num den up = record { num = round_to_even num den; den = up }
scale_up (suc fuel) num den up =
    let rest = scale_up fuel (num * 2) den (up * 2) in
    if ltb num (2 ^ 52 * den) then rest else record { num = round_to_even num den; den = up }

-- Halved until it has 53 bits, and rounded.
scale_down : ℕ → ℕ → ℕ → ℕ → Double
unfolding round_to_even
scale_down zero num den down = record { num = round_to_even num den * down; den = 1 }
scale_down (suc fuel) num den down =
    let rest = scale_down fuel num (den * 2) (down * 2) in
    if leb (2 ^ 53 * den) num then rest else record { num = round_to_even num den * down; den = 1 }

-- The double nearest to num / den. An int64 divided by at most 3600 needs 64 doublings at most.
unfoldable pub nearest : ℕ → ℕ → Double
unfolding scale_up scale_down
nearest num den =
    if num == 0
    then record { num = 0; den = 1 }
    else if ltb num (2 ^ 53 * den)
    then scale_up 64 num den 1
    else scale_down 64 num den 1

abbrev divided : Double → ℕ → Double
divided x k = nearest x.num (x.den * k)

abbrev multiplied : Double → ℕ → Double
multiplied x k = nearest (x.num * k) x.den

abbrev whole : Double → ℕ
whole x = round_to_even x.num x.den

-- `RoundToEven(float64(s) / 3600.0 * 100.0)`
unfoldable pub hours_of_seconds : ℕ → ℕ
unfolding nearest round_to_even
hours_of_seconds s = whole (multiplied (divided (nearest s 1) 3600) 100)

-- `RoundToEven(float64(x) / 100.0)`
unfoldable pub cents_of_hundredths : ℕ → ℕ
unfolding nearest round_to_even
cents_of_hundredths x = whole (divided (nearest x 1) 100)

-- The rounding is the same on both sides of 0.
abbrev signed : (ℕ → ℕ) → ℤ → ℤ
signed f (pos n) = pos (f n)
signed f (negsuc n) = sub_ℕ 0 (f (suc n))

-- The product of two int64, before it wraps.
abbrev product : ℤ → ℤ → ℤ
product a (pos n) = times_ℤ a n
product (pos m) (negsuc n) = sub_ℕ 0 (m * suc n)
product (negsuc m) (negsuc n) = pos (suc m * suc n)

-- `ComputeLineItem`
unfoldable pub compute_line_item : BillingMode → ℕ → ℕ → ℤ → LineItem
unfolding hours_of_seconds cents_of_hundredths wrap64
compute_line_item BillingMode.monthly_fixed ticks tick_sec rate = record {
  quantity_hours_times_100 = pos 100;
  unit_cents = rate;
  total_cents = rate;
}
compute_line_item BillingMode.hourly ticks tick_sec rate =
    let hours = signed hours_of_seconds (wrap64 (pos (ticks * tick_sec))) in
    record {
      quantity_hours_times_100 = hours;
      unit_cents = rate;
      total_cents = signed cents_of_hundredths (wrap64 (product hours rate));
    }
compute_line_item BillingMode.not_billable ticks tick_sec rate = record {
  quantity_hours_times_100 = pos 0;
  unit_cents = pos 0;
  total_cents = pos 0;
}
