-- ===== src/Invoice/Number.antt =====
-- internal/invoice/format.go: invoice numbers, hours and money as text.
pub mod Readback
use antitimely.Prelude.{
  ℕ, zero, suc, ◌+◌, ◌-◌, ◌*◌, ◌/◌, ◌%◌, Bool, true, false, List, [], ◌∷◌, ◌++◌, length, ltb, leb,
  ◌==◌, if◌then◌else◌,
}
use antitimely.Prelude.Text.{Str, codes}

-- `%d`: the digits of `n`, most significant first. `n` steps are enough, as each drops a digit.
unfoldable pub digits_fuel : ℕ → ℕ → Str
digits_fuel zero n = (48 + n) ∷ []
digits_fuel (suc fuel) n =
    let rest = digits_fuel fuel (n / 10) in
    if ltb n 10 then (48 + n) ∷ [] else rest ++ ((48 + n % 10) ∷ [])

unfoldable pub digits : ℕ → Str
unfolding digits_fuel
digits n = digits_fuel n n

unfoldable pub zeros : ℕ → Str
zeros zero = []
zeros (suc n) = 48 ∷ zeros n

-- `%0*d`
unfoldable pub padded : ℕ → ℕ → Str
unfolding zeros digits
padded width n = zeros (width - length (digits n)) ++ digits n

-- `FormatInvoiceNumber`: a width of 0 (the source also takes a negative one) does not pad.
unfoldable pub format_invoice_number : Str → ℕ → ℕ → Str
unfolding padded digits
format_invoice_number prefix pad n =
    if leb pad 0 then prefix ++ digits n else prefix ++ padded pad n

-- `FormatHours`, for hours that are not negative
unfoldable pub format_hours : ℕ → Str
unfolding padded digits
format_hours h =
    let whole = h / 100 in
    let frac = h % 100 in
    if frac == 0
    then digits whole
    else if frac % 10 == 0
    then digits whole ++ (codes "." ++ digits (frac / 10))
    else digits whole ++ (codes "." ++ padded 2 frac)
