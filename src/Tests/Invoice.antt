-- ===== src/Tests/Invoice.antt =====
-- Runs of the invoice code.
use antitimely.Prelude.{◌≡◌, refl}
use antitimely.Prelude.Int.{pos}
use antitimely.Invoice.LineItem.{BillingMode, compute_line_item, hours_of_seconds}

-- 34.5 minutes are 0.575 h, which the comment's rounding to even would make 58 hundredths.
half_hour : hours_of_seconds 2070 ≡ 57
unfolding hours_of_seconds
half_hour = refl

an_hour : (compute_line_item BillingMode.hourly 720 5 (pos 7500)).total_cents ≡ pos 7500
unfolding compute_line_item
an_hour = refl
