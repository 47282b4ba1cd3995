-- ===== src/Invoice/Doc/Totals.antt =====
-- The amounts of a document that was built.
use antitimely.Prelude.{◌+◌, ◌-◌, ◌≡◌, ◌≢◌, refl, inl, inr, false, none, arith, Option-cases}
use antitimely.Prelude.Int.{ℤ, pos, negsuc, ◌+ℤ◌, ◌-ℤ◌, ◌+₆₄◌, ◌-₆₄◌, ◌≤ℤ◌, ltb_ℤ, wrap64_id}
use antitimely.Invoice.Config.{bank_for}
use antitimely.Invoice.LineItem.{LineItem, compute_line_item}
use antitimely.Invoice.Doc.{Zone, BuildDocInput, InvoiceDoc, Built, build_doc, amount_due_cents}
use antitimely.Invoice.Credit.{apply_credit}
use antitimely.Invoice.Credit.Bounds.{IsMoney, apply_credit-bounds}

-- The line item of the input.
abbrev pub item_of : BuildDocInput → LineItem
item_of i = compute_line_item i.billing_mode i.ticks i.tick_sec i.rate_cents

wrap64_sum : (a b c : ℤ) → IsMoney a → IsMoney b → IsMoney c → a +ℤ b ≤ℤ c → (a +₆₄ b) ≡ (a +ℤ b)
unfolding ◌+ℤ◌
wrap64_sum (pos a) (pos b) (pos c) ha hb hc h =
    let e : (pos a +ℤ pos b) ≡ pos (a + b) = ground arith in
    rw e (wrap64_id (pos (a + b)) (ground arith))
wrap64_sum (pos a) (pos b) (negsuc c) ha hb hc h = absurd (ground arith)
wrap64_sum (pos a) (negsuc b) c ha hb hc h = absurd (ground arith)
wrap64_sum (negsuc a) b c ha hb hc h = absurd (ground arith)

-- Money that is at most money is money.
IsMoney-below : (a b : ℤ) → pos 0 ≤ℤ a → a ≤ℤ b → IsMoney b → IsMoney a
IsMoney-below (pos a) (pos b) h k m = ground arith
IsMoney-below (pos a) (negsuc b) h k m = absurd (ground arith)
IsMoney-below (negsuc a) b h k m = absurd (ground arith)

due_lem :
    (t d c : ℤ)
    → IsMoney t
    → IsMoney d
    → pos 0 ≤ℤ c
    → d +ℤ c ≤ℤ t
    → (c ≤ℤ t) × (pos 0 ≤ℤ (t -₆₄ d -₆₄ c))
unfolding ◌+ℤ◌ ◌-ℤ◌
due_lem (pos t) (pos d) (pos c) ht hd hc h =
    let e : (pos t -ℤ pos d) ≡ pos (t - d) = ground arith in
    let k : (pos (t - d) -ℤ pos c) ≡ pos (t - d - c) = ground arith in
    (
      ground arith,
      rw (e, wrap64_id (pos (t - d)) (ground arith), k, wrap64_id (pos (t - d - c)) (ground arith))
          (omega arith),
    )
due_lem (pos t) (pos d) (negsuc c) ht hd hc h = absurd (ground arith)
due_lem (pos t) (negsuc d) c ht hd hc h = absurd (ground arith)
due_lem (negsuc t) d c ht hd hc h = absurd (ground arith)

-- The tests of `BuildDoc` on the amounts pass.
accepted :
    (t d c : ℤ)
    → IsMoney t
    → IsMoney d
    → pos 0 ≤ℤ c
    → d +ℤ c ≤ℤ t
    → (ltb_ℤ d (pos 0) ≡ false) × (ltb_ℤ c (pos 0) ≡ false) × (ltb_ℤ t (d +₆₄ c) ≡ false)
accepted t d c ht hd hc h =
    let below = due_lem t d c ht hd hc h in
    (
      ground arith,
      ground arith,
      rw (wrap64_sum d c t hd (IsMoney-below c t hc below.0 ht) ht h) (ground arith),
    )

-- The credit that `ApplyCredit` takes for the document's own line total, with a goodwill that is not
-- negative and at most the total, never makes `BuildDoc` refuse, whatever the balance was, even a
-- negative one: where the sender has an account for the currency the document is built.
pub build_doc-apply_credit :
    (zone : Zone) (i : BuildDocInput) (balance : ℤ)
    → IsMoney (item_of i).total_cents
    → IsMoney i.discount_cents
    → i.discount_cents ≤ℤ (item_of i).total_cents
    → (bank_for i.sender i.currency ≢ none)
    → i.credit_applied_cents ≡ apply_credit balance (item_of i).total_cents i.discount_cents
    → (d : InvoiceDoc) × (build_doc zone i ≡ Built.built d) × (pos 0 ≤ℤ amount_due_cents d)
unfolding build_doc amount_due_cents
build_doc-apply_credit zone i balance ht hd h bank e =
    let (low, fits, _, _) =
      apply_credit-bounds balance (item_of i).total_cents i.discount_cents ht hd h in
    let hc : pos 0 ≤ℤ i.credit_applied_cents = rw e low in
    let hs : i.discount_cents +ℤ i.credit_applied_cents ≤ℤ (item_of i).total_cents = rw e fits in
    let (t0, t1, t2) =
      accepted (item_of i).total_cents i.discount_cents i.credit_applied_cents ht hd hc hs in
    elim (Option-cases (bank_for i.sender i.currency)) [
      | inl absent ↦ absurd (bank absent)
      | inr (b, found) ↦
          rw (found, build_doc)
            (rw (t0, t1, t2)
              (
                _,
                refl,
                (due_lem (item_of i).total_cents i.discount_cents i.credit_applied_cents ht hd hc
                    hs).1,
              ))
    ]
