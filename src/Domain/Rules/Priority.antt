-- ===== src/Domain/Rules/Priority.antt =====
-- Which rule decides: the least matching one by priority and id, whatever order the rules come in.
use antitimely.Prelude.{
  ℕ, ◌≡◌, refl, ◌⊎◌, inl, inr, true, false, Option, none, some, List, [], ◌∷◌, arith, In,
  Bool-cases,
}
use antitimely.Domain.Signal.{Signal, RuleSpec}
use antitimely.Domain.Rules.{match_one, less, insert_rule, sort_rules, first_match, match_rules}

-- No rule of the list that matches goes before the rule.
abbrev pub IsLeast : Signal → RuleSpec → List RuleSpec → Type 0
IsLeast sig r rules = (s : RuleSpec) → In s rules → match_one sig s ≡ true → less s r ≡ false

-- Each entry is not after any that follows.
abbrev IsSorted : List RuleSpec → Type 0
IsSorted [] = Unit
IsSorted (r ∷ rs) = ((s : RuleSpec) → In s rs → less s r ≡ false) × IsSorted rs

less_asymm : (r s : RuleSpec) → less r s ≡ true → less s r ≡ false
unfolding less
less_asymm r s h = ground arith

not_less_trans : (r s t : RuleSpec) → less s r ≡ false → less t s ≡ false → less t r ≡ false
unfolding less
not_less_trans r s t h k = ground arith

over_head :
    (s x r : RuleSpec) (rs : List RuleSpec) → (s ≡ r) ⊎ In s rs → (s ≡ r) ⊎ ((s ≡ x) ⊎ In s rs)
over_head s x r rs (inl p) = inl p
over_head s x r rs (inr i) = inr (inr i)

In-insert : (s r : RuleSpec) (rs : List RuleSpec) → In s (insert_rule r rs) → (s ≡ r) ⊎ In s rs
unfolding insert_rule
In-insert s r [] h = h
In-insert s r (x ∷ rs) h = elim (Bool-cases (less x r)) [
  | inl e ↦
      let h' : (s ≡ x) ⊎ In s (insert_rule r rs) = rw e at h in
      elim h' [ inl p ↦ inr (inl p) | inr q ↦ over_head s x r rs (In-insert s r rs q) ]
  | inr e ↦ rw e at h
]

In-insert_old : (s r : RuleSpec) (rs : List RuleSpec) → In s rs → In s (insert_rule r rs)
unfolding insert_rule
In-insert_old s r [] h = inr h
In-insert_old s r (x ∷ rs) h = elim (Bool-cases (less x r)) [
  | inl e ↦ rw e (elim h [ inl p ↦ inl p | inr i ↦ inr (In-insert_old s r rs i) ])
  | inr e ↦ rw e (inr h)
]

In-insert_new : (r : RuleSpec) (rs : List RuleSpec) → In r (insert_rule r rs)
unfolding insert_rule
In-insert_new r [] = inl refl
In-insert_new r (x ∷ rs) = elim (Bool-cases (less x r)) [
  | inl e ↦ rw e (inr (In-insert_new r rs))
  | inr e ↦ rw e (inl refl)
]

insert_rule-IsSorted :
    (r : RuleSpec) (rs : List RuleSpec) → IsSorted rs → IsSorted (insert_rule r rs)
unfolding insert_rule
insert_rule-IsSorted r [] h = (λ s i. absurd i, tt)
insert_rule-IsSorted r (x ∷ rs) h = elim (Bool-cases (less x r)) [
  | inl e ↦ rw e (
    (λ s i. elim (In-insert s r rs i) [ inl p ↦ rw p (less_asymm x r e) | inr j ↦ h.0 s j ]),
    insert_rule-IsSorted r rs h.1,
  )
  | inr e ↦ rw e ((λ s i. elim i [ inl p ↦ rw p e | inr j ↦ not_less_trans r x s e (h.0 s j) ]), h)
]

sort_rules-IsSorted : (rs : List RuleSpec) → IsSorted (sort_rules rs)
unfolding sort_rules
sort_rules-IsSorted [] = tt
sort_rules-IsSorted (r ∷ rs) = insert_rule-IsSorted r (sort_rules rs) (sort_rules-IsSorted rs)

In-sort : (s : RuleSpec) (rs : List RuleSpec) → In s (sort_rules rs) → In s rs
unfolding sort_rules
In-sort s [] h = h
In-sort s (r ∷ rs) h = elim (In-insert s r (sort_rules rs) h) [
  | inl p ↦ inl p
  | inr i ↦ inr (In-sort s rs i)
]

In-sort_old : (s : RuleSpec) (rs : List RuleSpec) → In s rs → In s (sort_rules rs)
unfolding sort_rules
In-sort_old s [] h = h
In-sort_old s (r ∷ rs) (inl p) = rw p (In-insert_new r (sort_rules rs))
In-sort_old s (r ∷ rs) (inr i) = In-insert_old s r (sort_rules rs) (In-sort_old s rs i)

-- What an answer says of the rules: the project of a least matching rule, or that none matches.
abbrev pub Decides : Signal → List RuleSpec → Option ℕ → Type 0
Decides sig rules none = (r : RuleSpec) → In r rules → match_one sig r ≡ false
Decides sig rules (some pid) =
    (r : RuleSpec) × In r rules
    × (match_one sig r ≡ true)
    × (r.project_id ≡ pid)
    × IsLeast sig r rules

less_irrefl : (r : RuleSpec) → less r r ≡ false
unfolding less
less_irrefl r = ground arith

Decides-cons :
    (sig : Signal) (r : RuleSpec) (rs : List RuleSpec) (o : Option ℕ)
    → match_one sig r ≡ false
    → Decides sig rs o
    → Decides sig (r ∷ rs) o
Decides-cons sig r rs none e d = λ s i. elim i [ inl p ↦ rw p e | inr j ↦ d s j ]
Decides-cons sig r rs (some pid) e (s, i, m, p, least) =
    (s, inr i, m, p, λ t k mt. elim k [ inl q ↦ absurd (cc) | inr j ↦ least t j mt ])

first_match-Decides :
    (sig : Signal) (rs : List RuleSpec) → IsSorted rs → Decides sig rs (first_match sig rs)
unfolding first_match
first_match-Decides sig [] h = λ r i. absurd i
first_match-Decides sig (r ∷ rs) h = elim (Bool-cases (match_one sig r)) [
  | inl e ↦
      rw e
        (r, inl refl, e, refl, λ s i m. elim i [ inl p ↦ rw p (less_irrefl r) | inr j ↦ h.0 s j ])
  | inr e ↦ rw e (Decides-cons sig r rs _ e (first_match-Decides sig rs h.1))
]

Decides-same :
    (sig : Signal) (rs ss : List RuleSpec) (o : Option ℕ)
    → ((r : RuleSpec) → In r rs → In r ss)
    → ((r : RuleSpec) → In r ss → In r rs)
    → Decides sig rs o
    → Decides sig ss o
Decides-same sig rs ss none to from d = λ r i. d r (from r i)
Decides-same sig rs ss (some pid) to from (r, i, m, p, least) =
    (r, to r i, m, p, λ s j. least s (from s j))

-- `MatchRules` answers with the project of the matching rule that is least by priority and then id,
-- and with nil exactly when no rule matches.
pub match_rules-Decides :
    (sig : Signal) (rules : List RuleSpec) → Decides sig rules (match_rules sig rules)
unfolding match_rules
match_rules-Decides sig rules =
    Decides-same sig (sort_rules rules) rules _ (λ r i. In-sort r rules i)
      (λ r i. In-sort_old r rules i)
      (first_match-Decides sig (sort_rules rules) (sort_rules-IsSorted rules))

-- Rule ids are the primary key of the rules table.
abbrev pub HasDistinctIds : List RuleSpec → Type 0
HasDistinctIds rules = (r s : RuleSpec) → In r rules → In s rules → r.id ≡ s.id → r ≡ s

less_total : (r s : RuleSpec) → less r s ≡ false → less s r ≡ false → r.id ≡ s.id
unfolding less
less_total r s h k = ground arith

Decides-unique :
    (sig : Signal) (rules : List RuleSpec) (o o' : Option ℕ)
    → HasDistinctIds rules
    → Decides sig rules o
    → Decides sig rules o'
    → o ≡ o'
Decides-unique sig rules none none ids d d' = refl
Decides-unique sig rules none (some p) ids d (r, i, m, _, _) = absurd (cc (d r i))
Decides-unique sig rules (some p) none ids (r, i, m, _, _) d = absurd (cc (d r i))
Decides-unique sig rules (some p) (some q) ids (r, i, m, e, least) (s, j, n, f, least') =
    cc (ids r s i j (less_total r s (least' r i m) (least s j n)))

-- The answer does not depend on the order in which the rules are listed: with distinct ids, two
-- listings of the same rules give every signal the same project.
pub match_rules_order :
    (sig : Signal) (rules rules' : List RuleSpec)
    → HasDistinctIds rules
    → ((r : RuleSpec) → In r rules → In r rules')
    → ((r : RuleSpec) → In r rules' → In r rules)
    → match_rules sig rules ≡ match_rules sig rules'
match_rules_order sig rules rules' ids to from =
    Decides-unique sig rules _ _ ids (match_rules-Decides sig rules)
      (Decides-same sig rules' rules _ from to (match_rules-Decides sig rules'))
