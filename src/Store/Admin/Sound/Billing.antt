-- ===== src/Store/Admin/Sound/Billing.antt =====
-- The references to the companies, and from the invoices.
use antitimely.Prelude.{
  arith, inl, inr, ℕ, ◌≡◌, refl, ap, ◌∙◌, true, not, Option, none, some, List, map, ◌==◌, any, keep,
  All, All-mono, All-keep, All-map, any-keep, any-map, Bool-cases, Option-cases,
}
use antitimely.Prelude.Text.{Str}
use antitimely.Invoice.Ledger.{Invoice}
use antitimely.Invoice.LineItem.{BillingMode}
use antitimely.Invoice.Service.{Company}
use antitimely.Store.Admin.After.{After-some, After-allow}
use antitimely.Store.Admin.{
  bill_named, Database, BillingParams, has_project, has_company, leaves, leave, get_company_by_name,
  add_company, delete_company_by_name, set_company_billing, add_invoice, delete_invoice,
}
use antitimely.Store.Admin.Sound.{IsSound, KeepsSound, at_home-more, or_here, negated, distinct_ids}

-- The references to the companies, after a change that loses none.
more_companies :
    (db : Database) (cs : List Company)
    → IsSound db
    → ((c : ℕ) → has_company db (some c) ≡ true → any (λ k. k.id == c) cs ≡ true)
    → IsSound (record db { companies = cs })
more_companies db cs h more = record {
  projects = All-mono _ _ db.projects (λ p. at p.company_id) h.projects;
  rules = h.rules;
  ticks = h.ticks;
  ignored = h.ignored;
  invoices = All-mono _ _ db.invoices (λ r. more r.company_id) h.invoices;
}
  where
    at :
        (o : Option ℕ)
        → has_company db o ≡ true
        → has_company (record db { companies = cs }) o ≡ true
    at none e = refl
    at (some c) e = more c e

pub add_company-IsSound : (name : Str) (now : ℕ) → KeepsSound (add_company name now)
unfolding add_company
add_company-IsSound name now db h =
    After-allow _ _ λ t. more_companies db _ h (λ c e. or_here _ _ e)

same_id :
    (name : Str) (mode : BillingMode) (a : BillingParams) (c : Company)
    → (bill_named name mode a c).id ≡ c.id
same_id name mode a c = ground arith

pub set_company_billing-IsSound :
    (name : Str) (a : BillingParams) → KeepsSound (set_company_billing name a)
unfolding set_company_billing
set_company_billing-IsSound name a db h = elim (Option-cases a.billing_mode) [
  | inl e ↦ rw e (After-allow _ _ λ t. h)
  | inr (mode, e) ↦ rw e (
      After-some _ (
        more_companies db _ h λ c k.
          any-map (λ x. x.id == c) (bill_named name mode a) db.companies
            (λ x. ap (λ i. i == c) (same_id name mode a x))
          ∙ k))
]

invoices-IsSound :
    (db : Database) (rs : List Invoice)
    → IsSound db
    → All (λ r. has_company db (some r.company_id) ≡ true) rs
    → IsSound (record db { invoices = rs })
invoices-IsSound db rs h all = record {
  projects = h.projects;
  rules = h.rules;
  ticks = h.ticks;
  ignored = h.ignored;
  invoices = all;
}

pub add_invoice-IsSound :
    (company sent_at : ℕ) (note : Str) (now : ℕ) → KeepsSound (add_invoice company sent_at note now)
unfolding add_invoice
add_invoice-IsSound company sent_at note now db h =
    After-allow _ _ λ t. invoices-IsSound db _ h (t, h.invoices)

pub delete_invoice-IsSound : (i : ℕ) → KeepsSound (delete_invoice i)
unfolding delete_invoice
delete_invoice-IsSound i db h =
    After-some _ (invoices-IsSound db _ h (All-keep _ _ _ db.invoices (λ r t e. e) h.invoices))

-- A company goes with its invoices, and its projects are left without one.
drop_company :
    (db : Database) (i : ℕ)
    → IsSound db
    → IsSound (record db {
      companies = keep (λ k. not (k.id == i)) db.companies;
      projects = map (leave i) db.projects;
      invoices = keep (λ r. not (r.company_id == i)) db.invoices;
    })
drop_company db i h = record {
  projects = All-map _ _ (leave i) db.projects (λ p e. left p.company_id e) h.projects;
  rules = All-mono _ _ db.rules (λ r e. there r.project_id e) h.rules;
  ticks =
      All-mono _ _ db.ticks
        (at_home-more db (record db { projects = map (leave i) db.projects }) there) h.ticks;
  ignored = h.ignored;
  invoices =
      All-keep _ _ (λ r. not (r.company_id == i)) db.invoices (λ r t e. still r.company_id t e)
        h.invoices;
}
  where
    there :
        (p : ℕ) → has_project db p ≡ true → any (λ q. q.id == p) (map (leave i) db.projects) ≡ true
    there p e = any-map (λ q. q.id == p) (leave i) db.projects (λ q. refl) ∙ e

    still :
        (c : ℕ)
        → not (c == i) ≡ true
        → has_company db (some c) ≡ true
        → any (λ k. k.id == c) (keep (λ k. not (k.id == i)) db.companies) ≡ true
    still c t e =
        any-keep (λ k. k.id == c) (λ k. not (k.id == i)) db.companies
          (λ k u. distinct_ids k.id c i t u)
        ∙ e

    left :
        (o : Option ℕ)
        → has_company db o ≡ true
        → (elim (leaves i o) [
          | none ↦ true
          | some c ↦ any (λ k. k.id == c) (keep (λ k. not (k.id == i)) db.companies)
        ])
          ≡ true
    left none e = refl
    left (some c) e = elim (Bool-cases (c == i)) [
      | inl t ↦ rw t refl
      | inr t ↦ rw t (still c (negated (c == i) t) e)
    ]

pub delete_company_by_name-IsSound : (name : Str) → KeepsSound (delete_company_by_name name)
unfolding delete_company_by_name
delete_company_by_name-IsSound name db h = elim (Option-cases (get_company_by_name name db)) [
  | inl e ↦ rw (e, delete_company_by_name) (After-some _ h)
  | inr (c, e) ↦ rw (e, delete_company_by_name) (After-some _ (drop_company db c.id h))
]
