-- ===== src/Rpc/Guards.antt =====
-- What the refusals of `InvoiceDelete` and `CompanyDelete` protect.
use antitimely.Prelude.{
  arith, subst, inl, inr, ℕ, ◌≡◌, refl, sym, ap, ◌∙◌, true, false, not, Option, some, List, [], ◌∷◌,
  ◌==◌, if◌then◌else◌, any, find, keep, All, All-mono, any-All, Bool-cases, ==_iff,
}
use antitimely.Prelude.Int.{ℤ, pos, ◌+ℤ◌, ltb_ℤ, int_laws}
use antitimely.Prelude.Text.{Str}
use antitimely.Invoice.Ledger.{Invoice, advanced_by, sum_of, of_company, company_credit_balance}
use antitimely.Store.Admin.{Database, get_invoice_by_id, delete_invoice}
use antitimely.Store.Admin.After.{After-some}
use antitimely.Rpc.Exec.{RpcError, Reply, err, ok, Service, proceed, pure, raise, statement, ◌>>=◌}
use antitimely.Rpc.Exec.Stable.{Stable, OnDb, is_ok, stable_rules}
use antitimely.Rpc.Exec.Runs.{select-runs, found-runs, statement-runs}
use antitimely.Rpc.{refuse_credit, carries_credit, invoice_delete}

-- No two invoices share an id.
abbrev pub IsKeyed : List Invoice → Type 0
IsKeyed [] = Unit
IsKeyed (r ∷ rows) = (any (λ x. x.id == r.id) rows ≡ false) × IsKeyed rows

-- An invoice draws no negative credit.
abbrev pub DrawsCredit : Invoice → Type 0
DrawsCredit r = ltb_ℤ r.credit_applied_cents (pos 0) ≡ false

-- The rows of the id carry no credit.
abbrev IsFree : ℕ → Invoice → Type 0
IsFree i x = (x.id == i) ≡ true → carries_credit x ≡ false

found-IsFree :
    (i : ℕ) (rows : List Invoice) (r : Invoice)
    → IsKeyed rows
    → find (λ x. x.id == i) rows ≡ some r
    → carries_credit r ≡ false
    → All (IsFree i) rows
found-IsFree i [] r k h c = tt
found-IsFree i (x ∷ rows) r k h c = elim (Bool-cases (x.id == i)) [
  | inl t ↦ (
    λ e. here x.id t h,
    All-mono _ _ rows (λ y. other y x.id i ((==_iff _ _).0 t))
        (any-All (λ y. y.id == x.id) rows k.0),
  )
  | inr t ↦ (λ e. absurd (cc (t, e)), found-IsFree i rows r k.1 (there h t) c)
]
  where
    here :
        (j : ℕ)
        → (x.id == i) ≡ true
        → find (λ y. y.id == i) (x ∷ rows) ≡ some r
        → carries_credit x ≡ false
    here j t e = subst (λ y. carries_credit y ≡ false) (sym (first t e)) c
      where
        first : (x.id == i) ≡ true → find (λ y. y.id == i) (x ∷ rows) ≡ some r → x ≡ r
        first t e = ground (arith, t, e)

    there :
        find (λ y. y.id == i) (x ∷ rows) ≡ some r
        → (x.id == i) ≡ false
        → find (λ y. y.id == i) rows ≡ some r
    there e t = ground (arith, t, e)

    other : (y : Invoice) (j i : ℕ) → j ≡ i → (y.id == j) ≡ false → IsFree i y
    other y j i e f g = absurd (ground (arith, e, f, g))

refused :
    (i : ℕ) (s : Service)
    → IsKeyed s.db.invoices
    → is_ok (refuse_credit i s).0 ≡ true
    → All (IsFree i) s.db.invoices
unfolding refuse_credit get_invoice_by_id raise
refused i s k =
    select-runs (λ x. is_ok x.0 ≡ true → All (IsFree i) s.db.invoices) _ _ s
      (λ fs e. absurd (ground arith))
      λ fs.
        found-runs (λ x. is_ok x.0 ≡ true → All (IsFree i) s.db.invoices) _ _ _
          (λ e. absurd (ground arith)) λ r e. go r e _
  where
    go :
        (r : Invoice)
        → find (λ x. x.id == i) s.db.invoices ≡ some r
        → (t : Service)
        → is_ok ((if carries_credit r then raise RpcError.has_credit else pure tt) t).0 ≡ true
        → All (IsFree i) s.db.invoices
    go r e t h = elim (Bool-cases (carries_credit r)) [
      | inl u ↦ absurd (ground (arith, u, h))
      | inr u ↦ found-IsFree i s.db.invoices r k e u
    ]

-- What the row adds to a sum of its company is nothing.
free_of :
    (i : ℕ) (x : Invoice)
    → IsFree i x
    → DrawsCredit x
    → (x.id == i) ≡ true
    → (advanced_by x ≡ pos 0) × (x.credit_applied_cents ≡ pos 0)
unfolding carries_credit
free_of i x h d e = (no_advance x (h e), ground (arith, h e, d))
  where
    no_advance : (x : Invoice) → carries_credit x ≡ false → advanced_by x ≡ pos 0
    no_advance x c = ground (arith, c)

sum_of-keep :
    (f : Invoice → ℤ) (company : ℕ) (currency : Option Str) (i : ℕ) (rows : List Invoice)
    → All (λ x. (x.id == i) ≡ true → f x ≡ pos 0) rows
    → sum_of f company currency (keep (λ r. not (r.id == i)) rows) ≡ sum_of f company currency rows
unfolding sum_of
sum_of-keep f company currency i [] h = refl
sum_of-keep f company currency i (r ∷ rows) h = elim (Bool-cases (r.id == i)) [
  | inl t ↦ elim (Bool-cases (of_company company currency r)) [
    | inl u ↦
        rw (t, u)
          (sum_of-keep f company currency i rows h.1
            ∙ nothing_more (sum_of f company currency rows) (h.0 t))
    | inr u ↦ rw (t, u) (sum_of-keep f company currency i rows h.1)
  ]
  | inr t ↦ rw (t, sum_of) (rw (sum_of-keep f company currency i rows h.1) refl)
]
  where
    nothing_more : (a : ℤ) → f r ≡ pos 0 → a ≡ f r +ℤ a
    nothing_more a e = rw e (grind int_laws)

same_database : (i : ℕ) (d : Database) → Stable (OnDb (λ x. x ≡ d)) (refuse_credit i)
unfolding refuse_credit
same_database i d = search stable_rules

All-both_free :
    (i : ℕ) (rows : List Invoice)
    → All (IsFree i) rows
    → All DrawsCredit rows
    → All (λ x. (x.id == i) ≡ true → advanced_by x ≡ pos 0) rows
      × All (λ x. (x.id == i) ≡ true → x.credit_applied_cents ≡ pos 0) rows
All-both_free i [] h d = (tt, tt)
All-both_free i (x ∷ rows) h d =
    let (a, b) = All-both_free i rows h.1 d.1 in
    ((λ e. (free_of i x h.0 d.0 e).0, a), (λ e. (free_of i x h.0 d.0 e).1, b))

balance-keep :
    (i company : ℕ) (currency : Option Str) (rows : List Invoice)
    → All (IsFree i) rows
    → All DrawsCredit rows
    → company_credit_balance company currency (keep (λ r. not (r.id == i)) rows)
      ≡ company_credit_balance company currency rows
unfolding company_credit_balance
balance-keep i company currency rows h d =
    let (a, b) = All-both_free i rows h d in
    rw
      (
        sum_of-keep advanced_by company currency i rows a,
        sum_of-keep (λ r. r.credit_applied_cents) company currency i rows b,
      )
      refl

delete_invoice-invoices :
    (i : ℕ) (db : Database) (x : Unit × Database)
    → delete_invoice i db ≡ some x
    → x.1.invoices ≡ keep (λ r. not (r.id == i)) db.invoices
unfolding delete_invoice
delete_invoice-invoices i db x e =
    (After-some {R = λ d. d.invoices ≡ keep (λ r. not (r.id == i)) db.invoices} _ refl).at x e

-- Without `force`, no call of `InvoiceDelete` moves a credit balance, whether it returns or not, when
-- invoices have distinct ids and draw no negative credit.
pub invoice_delete-company_credit_balance :
    (i company : ℕ) (currency : Option Str) (s : Service)
    → IsKeyed s.db.invoices
    → All DrawsCredit s.db.invoices
    → company_credit_balance company currency (invoice_delete i false s).1.db.invoices
      ≡ company_credit_balance company currency s.db.invoices
unfolding invoice_delete ◌>>=◌
invoice_delete-company_credit_balance i company currency s k d =
    go (refuse_credit i s).0 (refuse_credit i s).1 ((same_database i s.db).at s refl)
      (refused i s k)
  where
    Keeps_balance : Service → Type 0
    Keeps_balance t =
        company_credit_balance company currency t.db.invoices
        ≡ company_credit_balance company currency s.db.invoices

    at_database : (t : Service) → t.db ≡ s.db → Keeps_balance t
    at_database t e = ap (λ db. company_credit_balance company currency db.invoices) e

    go :
        (r : Reply Unit) (t : Service)
        → t.db ≡ s.db
        → (is_ok r ≡ true → All (IsFree i) s.db.invoices)
        → Keeps_balance (proceed r (λ x. statement (delete_invoice i)) t).1
    go (err e) t same free = at_database t same
    go (ok a) t same free =
        statement-runs (λ x. Keeps_balance x.1) (delete_invoice i) t
          (λ e fs. at_database (record t { faults = fs }) same)
          λ x fs e.
            ap (λ rows. company_credit_balance company currency rows)
              (delete_invoice-invoices i t.db x e
                ∙ ap (λ db. keep (λ r. not (r.id == i)) db.invoices) same)
            ∙ balance-keep i company currency s.db.invoices (free refl) d
