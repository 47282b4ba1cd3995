-- ===== src/Rpc/Companies.antt =====
-- What the refusal of `CompanyDelete` protects.
use antitimely.Prelude.{
  arith, subst, inl, inr, ℕ, ◌≡◌, refl, sym, ap, ◌∙◌, Bool, true, false, not, some, List, [], ◌∷◌,
  ◌==◌, ltb, if◌then◌else◌, keep, length, All, All-mono, Bool-cases, Option-cases, keep-none,
}
use antitimely.Prelude.Text.{Str}
use antitimely.Invoice.Service.{Company}
use antitimely.Store.Admin.{
  Database, get_company_by_name, count_invoices_by_company_id, delete_company_by_name,
}
use antitimely.Store.Admin.After.{After, After-some}
use antitimely.Rpc.Exec.{RpcError, Reply, err, ok, Service, proceed, pure, raise, statement, ◌>>=◌}
use antitimely.Rpc.Exec.Stable.{Stable, OnDb, is_ok, stable_rules}
use antitimely.Rpc.Exec.Runs.{select-runs, found-runs, statement-runs}
use antitimely.Rpc.{refuse_invoices, company_delete}

-- The company of the name has no invoice.
abbrev HasNone : Str → Database → Type 0
HasNone name db =
    (c : Company) → get_company_by_name name db ≡ some c → count_invoices_by_company_id c.id db ≡ 0

same_database : (name : Str) (d : Database) → Stable (OnDb (λ x. x ≡ d)) (refuse_invoices name)
unfolding refuse_invoices
same_database name d = search stable_rules

let_through :
    (name : Str) (s : Service) → is_ok (refuse_invoices name s).0 ≡ true → HasNone name s.db
unfolding refuse_invoices raise
let_through name s =
    select-runs Q _ _ s (λ fs e. absurd (ground arith))
      λ fs.
        found-runs Q _ _ _ (λ e. absurd (ground arith))
          λ c e.
            select-runs Q _ _ _ (λ gs u. absurd (ground arith))
              λ gs. counted c e (record s { faults = gs })
  where
    Q : Reply Unit × Service → Type 0
    Q x = is_ok x.0 ≡ true → HasNone name s.db

    none_left : (n : ℕ) → ltb 0 n ≡ false → n ≡ 0
    none_left n h = ground arith

    only_company :
        (c d : Company)
        → get_company_by_name name s.db ≡ some c
        → get_company_by_name name s.db ≡ some d
        → count_invoices_by_company_id c.id s.db ≡ 0
        → count_invoices_by_company_id d.id s.db ≡ 0
    only_company c d e f h =
        subst (λ k. count_invoices_by_company_id k.id s.db ≡ 0) (same c d (sym e ∙ f)) h
      where
        same : (c d : Company) → some c ≡ some d → c ≡ d
        same c d e = cc e

    counted :
        (c : Company)
        → get_company_by_name name s.db ≡ some c
        → (t : Service)
        → Q (
            (if ltb 0 (count_invoices_by_company_id c.id s.db)
                then raise RpcError.has_invoices
                else pure tt)
              t)
    counted c e t h = elim (Bool-cases (ltb 0 (count_invoices_by_company_id c.id s.db))) [
      | inl u ↦ absurd (ground (arith, u, h))
      | inr u ↦ λ d f. only_company c d e f (none_left _ u)
    ]

keep-all {ℓ} : {A : Type ℓ} (f : A → Bool) (xs : List A) → All (λ x. f x ≡ true) xs → keep f xs ≡ xs
keep-all f [] h = refl
keep-all f (x ∷ xs) h = rw (h.0, keep-all f xs h.1) refl

delete_company-invoices :
    (name : Str) (db : Database)
    → HasNone name db
    → After (λ d. d.invoices ≡ db.invoices) (delete_company_by_name name db)
unfolding delete_company_by_name count_invoices_by_company_id
delete_company-invoices name db h = elim (Option-cases (get_company_by_name name db)) [
  | inl e ↦ rw (e, delete_company_by_name) (After-some _ refl)
  | inr (c, e) ↦ rw (e, delete_company_by_name) (After-some _ (kept c (h c e)))
]
  where
    negated : (a : Bool) → a ≡ false → not a ≡ true
    negated a h = ground arith

    kept :
        (c : Company)
        → length (keep (λ r. r.company_id == c.id) db.invoices) ≡ 0
        → keep (λ r. not (r.company_id == c.id)) db.invoices ≡ db.invoices
    kept c n = keep-all _ db.invoices (
        All-mono _ _ db.invoices (λ r. negated _)
          (keep-none (λ r. r.company_id == c.id) db.invoices n))

-- Without `force`, `CompanyDelete` deletes no invoice, whether it returns or not.
pub company_delete-invoices :
    (name : Str) (s : Service) → (company_delete name false s).1.db.invoices ≡ s.db.invoices
unfolding company_delete ◌>>=◌
company_delete-invoices name s =
    go (refuse_invoices name s).0 (refuse_invoices name s).1 ((same_database name s.db).at s refl)
      (let_through name s)
  where
    go :
        (r : Reply Unit) (t : Service)
        → t.db ≡ s.db
        → (is_ok r ≡ true → HasNone name s.db)
        → (proceed r (λ x. statement (delete_company_by_name name)) t).1.db.invoices ≡ s.db.invoices
    go (err e) t same free = ap (λ db. db.invoices) same
    go (ok a) t same free =
        statement-runs (λ x. x.1.db.invoices ≡ s.db.invoices) (delete_company_by_name name) t
          (λ e fs. ap (λ db. db.invoices) same)
          λ x fs e.
            (delete_company-invoices name s.db (free refl)).at x
              (ap (delete_company_by_name name) (sym same) ∙ e)
