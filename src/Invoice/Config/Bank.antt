-- ===== src/Invoice/Config/Bank.antt =====
-- The account that an invoice shows.
use antitimely.Prelude.{
  ◌≡◌, refl, sym, ap, subst, ◌⊎◌, inl, inr, true, false, Option, none, some, List, [], ◌∷◌, In,
  arith, Bool-cases, Option-cases,
}
use antitimely.Prelude.Text.{Str, str_eq, str_eq_iff}
use antitimely.Invoice.Config.{BankAccount, Sender, lookup, accepts, first_accepting, bank_for}

-- The account serves the currency: it is listed under it, or accepts it.
abbrev pub Serves : Str → Str × BankAccount → Type 0
Serves currency (ccy, b) = (ccy ≡ currency) ⊎ (accepts currency b.also_accepts ≡ true)

lookup-In :
    (k : Str) (m : List (Str × BankAccount)) (v : BankAccount) → lookup k m ≡ some v → In (k, v) m
unfolding lookup
lookup-In k [] v h = absurd (ground arith)
lookup-In k ((k', w) ∷ m) v h = elim (Bool-cases (str_eq k' k)) [
  | inl e ↦ inl (let q = (str_eq_iff k' k).0 e in ground arith)
  | inr e ↦ inr (lookup-In k m v (rw e at h))
]

lookup-absent :
    (k : Str) (m : List (Str × BankAccount))
    → lookup k m ≡ none
    → (v : BankAccount) → In (k, v) m
    → ⊥
unfolding lookup
lookup-absent k [] h v i = i
lookup-absent k ((k', w) ∷ m) h v i = elim i [
  | inl e ↦ (let q = str_eq_iff k' k in ground arith)
  | inr i' ↦ lookup-absent k m (let q = str_eq_iff k' k in ground arith) v i'
]

first_accepting-In :
    (currency : Str) (m : List (Str × BankAccount)) (b : BankAccount)
    → first_accepting currency m ≡ some b
    → (ccy : Str) × In (ccy, b) m × (accepts currency b.also_accepts ≡ true)
unfolding first_accepting
first_accepting-In currency [] b h = absurd (ground arith)
first_accepting-In currency ((ccy, w) ∷ m) b h =
    elim (Bool-cases (accepts currency w.also_accepts)) [
      | inl a ↦
          let e : w ≡ b = ground arith in
          (
            ccy,
            inl (ap (λ x. (ccy, x)) (sym e)),
            subst (λ x. accepts currency x.also_accepts ≡ true) e a,
          )
      | inr a ↦ let (c, i, k) = first_accepting-In currency m b (rw a at h) in (c, inr i, k)
    ]

first_accepting-none :
    (currency : Str) (m : List (Str × BankAccount)) (ccy : Str) (b : BankAccount)
    → first_accepting currency m ≡ none
    → In (ccy, b) m
    → accepts currency b.also_accepts ≡ false
unfolding first_accepting
first_accepting-none currency [] ccy b h i = absurd i
first_accepting-none currency ((c, w) ∷ m) ccy b h i = elim i [
  | inl e ↦ ground arith
  | inr i' ↦ first_accepting-none currency m ccy b (ground arith) i'
]

abbrev pub Shows : Sender → Str → Option BankAccount → Type 0
Shows s currency (some b) = (ccy : Str) × In (ccy, b) s.bank_accounts × Serves currency (ccy, b)
Shows s currency none =
    (ccy : Str) (b : BankAccount) → In (ccy, b) s.bank_accounts → Serves currency (ccy, b) → ⊥

-- In whatever order the map is iterated: the account shown is one of the sender's that serves the
-- currency, and there is none only where no account of the sender serves it.
pub bank_for-Serves : (s : Sender) (currency : Str) → Shows s currency (bank_for s currency)
unfolding bank_for
bank_for-Serves s currency = elim (Option-cases (lookup currency s.bank_accounts)) [
  | inr (b, e) ↦
      let k : some b ≡ bank_for s currency = ground arith in
      subst (Shows s currency) k (currency, lookup-In currency s.bank_accounts b e, inl refl)
  | inl e ↦ elim (Option-cases (first_accepting currency s.bank_accounts)) [
    | inr (b, f) ↦
        let k : some b ≡ bank_for s currency = ground arith in
        let (ccy, i, a) = first_accepting-In currency s.bank_accounts b f in
        subst (Shows s currency) k (ccy, i, inr a)
    | inl f ↦
        let k : none ≡ bank_for s currency = ground arith in
        subst (Shows s currency) k (λ ccy b i serves. elim serves [
          | inl same ↦
              lookup-absent currency s.bank_accounts e b
                (subst (λ x. In (x, b) s.bank_accounts) same i)
          | inr a ↦ absurd (cc (a, first_accepting-none currency s.bank_accounts ccy b f i))
        ])
  ]
]
