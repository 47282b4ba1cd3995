-- ===== src/Invoice/Number/Readback.antt =====
-- An invoice number can be read back, so no two share a text.
use antitimely.Prelude.{
  ℕ, zero, suc, ◌+◌, ◌-◌, ◌*◌, ◌/◌, ◌%◌, ◌≤◌, ◌≡◌, ◌≢◌, refl, ap, sym, ◌∙◌, [], ◌∷◌, ◌++◌, length,
  ltb, leb, arith, Bool-cases, inl, inr,
}
use antitimely.Prelude.Text.{Str}
use antitimely.Invoice.Number.{digits_fuel, digits, zeros, padded, format_invoice_number}

-- The number that a decimal text continues, from `acc` on.
unfoldable pub value_from : ℕ → Str → ℕ
value_from acc [] = acc
value_from acc (c ∷ s) = value_from (10 * acc + (c - 48)) s

value_from-append :
    (acc : ℕ) (s t : Str) → value_from acc (s ++ t) ≡ value_from (value_from acc s) t
unfolding value_from
value_from-append acc [] t = refl
value_from-append acc (c ∷ s) t = value_from-append (10 * acc + (c - 48)) s t

value_from-digits_fuel : (fuel n : ℕ) → n ≤ fuel → value_from 0 (digits_fuel fuel n) ≡ n
unfolding value_from digits_fuel
value_from-digits_fuel zero n h = omega arith
value_from-digits_fuel (suc fuel) n h = elim (Bool-cases (ltb n 10)) [
  | inl small ↦ rw small (omega arith)
  | inr large ↦
      let ih = value_from-digits_fuel fuel (n / 10) (ground arith) in
      rw (large, value_from-append 0 (digits_fuel fuel (n / 10)) ((48 + n % 10) ∷ []), ih)
        (omega arith)
]

value_from-zeros : (k : ℕ) (s : Str) → value_from 0 (zeros k ++ s) ≡ value_from 0 s
unfolding value_from zeros
value_from-zeros zero s = refl
value_from-zeros (suc k) s = value_from-zeros k s

value_from-padded : (width n : ℕ) → value_from 0 (padded width n) ≡ n
unfolding padded digits
value_from-padded width n =
    value_from-zeros (width - length (digits n)) (digits n)
    ∙ value_from-digits_fuel n n (omega arith)

append_injective : (p s t : Str) → p ++ s ≡ p ++ t → s ≡ t
append_injective [] s t h = h
append_injective (c ∷ p) s t h = append_injective p s t cc

format_invoice_number_injective :
    (prefix : Str) (pad m n : ℕ)
    → format_invoice_number prefix pad m ≡ format_invoice_number prefix pad n
    → m ≡ n
unfolding format_invoice_number digits
format_invoice_number_injective prefix pad m n h = elim (Bool-cases (leb pad 0)) [
  | inl bare ↦
      let e = append_injective prefix (digits m) (digits n) (rw bare at h) in
      sym (value_from-digits_fuel m m (omega arith))
      ∙ ap (value_from 0) e
      ∙ value_from-digits_fuel n n (omega arith)
  | inr wide ↦
      let e = append_injective prefix (padded pad m) (padded pad n) (rw wide at h) in
      sym (value_from-padded pad m) ∙ ap (value_from 0) e ∙ value_from-padded pad n
]

-- For one prefix and one padding, two different numbers are never printed the same.
pub format_invoice_number-distinct :
    (prefix : Str) (pad m n : ℕ)
    → m ≢ n
    → format_invoice_number prefix pad m ≢ format_invoice_number prefix pad n
format_invoice_number-distinct prefix pad m n ne same =
    ne (format_invoice_number_injective prefix pad m n same)
