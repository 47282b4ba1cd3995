-- ===== src/Rpc/Sync/Patterns.antt =====
-- The patterns and the rules of a snapshot, as sets.
use antitimely.Prelude.{
  arith, inl, inr, Option-cases, ◌≡◌, refl, sym, ◌∙◌, Bool, true, false, not, ◌&&◌, ◌||◌, Option,
  none, some, List, [], ◌∷◌, any, Bool-cases,
}
use antitimely.Prelude.Text.{Str, str_eq, str_eq_iff}
use antitimely.Domain.Signal.{RuleSpec}
use antitimely.Domain.Cwd.{is_nil}
use antitimely.Domain.Rules.{sort_rules, insert_rule, less}
use antitimely.Rpc.{cwd_patterns_of}

abbrev pub asks_cwd : Str → Option Str → Bool
asks_cwd x none = false
asks_cwd x (some p) = not (is_nil p) && str_eq x p

-- The rule's pattern is `x`, which is not empty.
abbrev pub asks_for : Str → RuleSpec → Bool
asks_for x r = asks_cwd x r.match_cwd_prefix

swap : (a b c : Bool) → (a || (b || c)) ≡ (b || (a || c))
swap a b c = ground arith

any-insert :
    (f : RuleSpec → Bool) (r : RuleSpec) (rs : List RuleSpec)
    → any f (insert_rule r rs) ≡ (f r || any f rs)
unfolding insert_rule
any-insert f r [] = refl
any-insert f r (s ∷ rs) = elim (Bool-cases (less s r)) [
  | inl t ↦ rw (t, insert_rule) (rw (any-insert f r rs) (swap (f s) (f r) (any f rs)))
  | inr t ↦ rw (t, insert_rule) refl
]

pub any-sort : (f : RuleSpec → Bool) (rs : List RuleSpec) → any f (sort_rules rs) ≡ any f rs
unfolding sort_rules
any-sort f [] = refl
any-sort f (r ∷ rs) = rw (any-insert f r (sort_rules rs), any-sort f rs) refl

known :
    (x p : Str) (seen : List Str)
    → any (str_eq p) seen ≡ true
    → str_eq x p ≡ true
    → any (str_eq x) seen ≡ true
known x p seen h e = rw ((str_eq_iff x p).0 e) h

-- With those seen, the patterns are those that a rule asks for.
seen_or_asked :
    (x : Str) (seen : List Str) (rs : List RuleSpec)
    → (any (str_eq x) (cwd_patterns_of seen rs) || any (str_eq x) seen)
      ≡ (any (asks_for x) rs || any (str_eq x) seen)
unfolding cwd_patterns_of
seen_or_asked x seen [] = refl
seen_or_asked x seen (r ∷ rs) = elim (Option-cases r.match_cwd_prefix) [
  | inl e ↦ rw (e, cwd_patterns_of) (seen_or_asked x seen rs)
  | inr (p, e) ↦ elim (Bool-cases (is_nil p || any (str_eq p) seen)) [
    | inl t ↦ rw (e, t) (skipped p (any (asks_for x) rs) t (seen_or_asked x seen rs))
    | inr t ↦ rw (e, t) (taken p _ _ t (seen_or_asked x (p ∷ seen) rs))
  ]
]
  where
    skipped :
        (p : Str) (b : Bool) {a : Bool}
        → (is_nil p || any (str_eq p) seen) ≡ true
        → a ≡ (b || any (str_eq x) seen)
        → a ≡ (((not (is_nil p) && str_eq x p) || b) || any (str_eq x) seen)
    skipped p b t e = elim (Bool-cases (str_eq x p)) [
      | inl u ↦ elim (Bool-cases (any (str_eq p) seen)) [
        | inl w ↦ ground (arith, t, e, u, w, known x p seen w u)
        | inr w ↦ ground (arith, t, e, u, w)
      ]
      | inr u ↦ ground (arith, e, u)
    ]

    taken :
        (p : Str) (a b : Bool)
        → (is_nil p || any (str_eq p) seen) ≡ false
        → (a || (str_eq x p || any (str_eq x) seen)) ≡ (b || (str_eq x p || any (str_eq x) seen))
        → ((str_eq x p || a) || any (str_eq x) seen)
          ≡ (((not (is_nil p) && str_eq x p) || b) || any (str_eq x) seen)
    taken p a b t e = ground (arith, t, e)

or_false : (a : Bool) → (a || false) ≡ a
or_false true = refl
or_false false = refl

pub cwd_patterns_of-any :
    (x : Str) (rs : List RuleSpec) → any (str_eq x) (cwd_patterns_of [] rs) ≡ any (asks_for x) rs
cwd_patterns_of-any x rs = sym (or_false _) ∙ seen_or_asked x [] rs ∙ or_false _
