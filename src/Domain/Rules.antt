-- ===== src/Domain/Rules.antt =====
-- internal/domain/match.go: `MatchRules`, the first matching rule in priority order.
pub mod Priority
use antitimely.Prelude.{
  ℕ, ◌≡◌, Bool, true, false, not, ◌&&◌, ◌||◌, Option, none, some, List, [], ◌∷◌, ltb, if◌then◌else◌,
}
use antitimely.Prelude.Int.{ℤ, ltb_ℤ, eqb_ℤ}
use antitimely.Prelude.Text.{Str, str_eq, contains}
use antitimely.Domain.Signal.{Signal, RuleSpec}
use antitimely.Domain.Cwd.{matches_cwd}

-- A nil field asks nothing.
abbrev pub asks : Option Str → (Str → Bool) → Bool
asks none f = true
asks (some v) f = f v

unfoldable pub match_one : Signal → RuleSpec → Bool
match_one sig r =
    asks r.match_bundle_id (λ v. str_eq sig.bundle_id v)
    && asks r.match_title_substr (λ v. contains sig.window_title v)
    && asks r.match_binary_name (λ v. str_eq sig.binary_name v)
    && asks r.match_cwd_prefix (λ v. matches_cwd v sig.cwd)
    && asks r.match_space_id (λ v. str_eq sig.space_id v)

-- The `less` of the sort: priority, then id.
unfoldable pub less : RuleSpec → RuleSpec → Bool
less r s = if not (eqb_ℤ r.priority s.priority) then ltb_ℤ r.priority s.priority else ltb r.id s.id

-- `sort.SliceStable`: a rule goes before the first that it does not follow.
unfoldable pub insert_rule : RuleSpec → List RuleSpec → List RuleSpec
insert_rule r [] = r ∷ []
insert_rule r (s ∷ ss) = if less s r then s ∷ insert_rule r ss else r ∷ s ∷ ss

unfoldable pub sort_rules : List RuleSpec → List RuleSpec
unfolding insert_rule
sort_rules [] = []
sort_rules (r ∷ rs) = insert_rule r (sort_rules rs)

unfoldable pub first_match : Signal → List RuleSpec → Option ℕ
first_match sig [] = none
first_match sig (r ∷ rs) = if match_one sig r then some r.project_id else first_match sig rs

unfoldable pub match_rules : Signal → List RuleSpec → Option ℕ
unfolding sort_rules first_match
match_rules sig rules = first_match sig (sort_rules rules)
