-- ===== src/Tests/Domain.antt =====
-- Runs of internal/domain and of the retroactive sweep at concrete inputs.
use antitimely.Prelude.{
  ℕ, ◌*◌, ◌≡◌, refl, sym, ap, ◌∙◌, inl, inr, true, false, Option, none, some, List, [], ◌∷◌, All,
  map, arith,
}
use antitimely.Prelude.Int.{pos}
use antitimely.Prelude.Text.{Str, codes, trim_right, has_char, str_eq, contains}
use antitimely.Domain.Path.{clean, path_dir, rooted_path, slash}
use antitimely.Domain.Glob.{matches, path_match}
use antitimely.Domain.Cwd.{ancestor_matches, matches_cwd, validate_cwd_pattern}
use antitimely.Domain.Cwd.Walk.{IsComponent, any_ancestor, matches_cwd-glob}
use antitimely.Domain.Signal.{Source, Signal, RuleSpec}
use antitimely.Domain.Rules.{match_one, match_rules}
use antitimely.Domain.Rules.Priority.{
  Decides, match_rules-Decides, match_rules_order, HasDistinctIds,
}
use antitimely.Store.Tables.{Observation, observed}
use antitimely.Retro.{Sqlite, star_term, anything, cwd_clause, retag_filter}
use antitimely.Retro.Parity.{cwd_clause-matches_cwd, retag_filter-match_one, params_of}

clean_rooted : clean (codes "/a/b/../c//./d/") ≡ codes "/a/c/d"
unfolding clean
clean_rooted = refl

clean_relative : clean (codes "../x/../../y") ≡ codes "../../y"
unfolding clean
clean_relative = refl

path_dir_nested : path_dir (codes "/a/b/c") ≡ codes "/a/b"
unfolding path_dir
path_dir_nested = refl

path_dir_root : path_dir (codes "/") ≡ codes "/"
unfolding path_dir
path_dir_root = refl

path_dir_empty : path_dir [] ≡ codes "."
unfolding path_dir
path_dir_empty = refl

path_dir_bare : path_dir (codes "a") ≡ codes "."
unfolding path_dir
path_dir_bare = refl

abbrev dirs : List Str
dirs = codes "api" ∷ codes "shop" ∷ codes "wt" ∷ []

dirs-IsComponent : All IsComponent dirs
unfolding has_char str_eq
dirs-IsComponent = (
  record { no_slash = refl; not_empty = refl; not_dot = refl; not_dot_dot = refl },
  (
    record { no_slash = refl; not_empty = refl; not_dot = refl; not_dot_dot = refl },
    (record { no_slash = refl; not_empty = refl; not_dot = refl; not_dot_dot = refl }, tt),
  ),
)

abbrev shops : Str
shops = codes "/wt/sh*"

matches_cwd-glob_example :
    matches_cwd shops (rooted_path dirs) ≡ any_ancestor (trim_right slash shops) dirs
unfolding trim_right has_char
matches_cwd-glob_example = matches_cwd-glob shops dirs dirs-IsComponent refl

-- The directory below /wt/shop is covered, and /var is not.
shops_cover : matches_cwd shops (codes "/wt/shop/api") ≡ true
unfolding matches_cwd trim_right has_char ancestor_matches path_match str_eq path_dir
shops_cover = refl

shops_spare : matches_cwd shops (codes "/var/shop") ≡ false
unfolding matches_cwd trim_right has_char ancestor_matches path_match str_eq path_dir
shops_spare = refl

abbrev rule_of : ℕ → ℕ → Option Str → RuleSpec
rule_of id priority cwd = record {
  id = id;
  project_id = 10 * id;
  priority = pos priority;
  match_bundle_id = none;
  match_title_substr = none;
  match_binary_name = none;
  match_cwd_prefix = cwd;
  match_space_id = none;
}

abbrev broad : RuleSpec
broad = rule_of 1 9 none

abbrev narrow : RuleSpec
narrow = rule_of 2 5 (some shops)

abbrev node_signal : Signal
node_signal = record {
  source = Source.agent;
  bundle_id = [];
  window_title = [];
  binary_name = codes "node";
  cwd = codes "/wt/shop/api";
  space_id = [];
}

match_rules-Decides_example :
    Decides node_signal (broad ∷ narrow ∷ []) (match_rules node_signal (broad ∷ narrow ∷ []))
match_rules-Decides_example = match_rules-Decides node_signal (broad ∷ narrow ∷ [])

distinct : HasDistinctIds (broad ∷ narrow ∷ [])
distinct r s (inl e) (inl f) h = e ∙ sym f
distinct r s (inl e) (inr (inl f)) h = absurd (omega (arith, h, ap (λ x. x.id) e, ap (λ x. x.id) f))
distinct r s (inr (inl e)) (inl f) h = absurd (omega (arith, h, ap (λ x. x.id) e, ap (λ x. x.id) f))
distinct r s (inr (inl e)) (inr (inl f)) h = e ∙ sym f
distinct r s (inl e) (inr (inr k)) h = absurd k
distinct r s (inr (inl e)) (inr (inr k)) h = absurd k
distinct r s (inr (inr k)) j h = absurd k

match_rules_order_example :
    match_rules node_signal (broad ∷ narrow ∷ []) ≡ match_rules node_signal (narrow ∷ broad ∷ [])
match_rules_order_example =
    match_rules_order node_signal (broad ∷ narrow ∷ []) (narrow ∷ broad ∷ []) distinct
      (λ r i. elim i [
        | inl e ↦ inr (inl e)
        | inr j ↦ elim j [ inl f ↦ inl f | inr k ↦ inr (inr k) ]
      ])
      (λ r i. elim i [
        | inl e ↦ inr (inl e)
        | inr j ↦ elim j [ inl f ↦ inl f | inr k ↦ inr (inr k) ]
      ])

-- SQLite's operators, as far as the sweep relies on them.
abbrev pub sqlite : Sqlite
sqlite = record {
  glob = λ p s. matches anything (map star_term p) s;
  like = λ p s. contains s p;
  glob_plain = λ p s h. refl;
}

cwd_clause-matches_cwd_example :
    cwd_clause sqlite shops (rooted_path dirs) ≡ matches_cwd shops (rooted_path dirs)
unfolding validate_cwd_pattern trim_right has_char
cwd_clause-matches_cwd_example = cwd_clause-matches_cwd sqlite shops dirs refl refl dirs-IsComponent

abbrev node_row : Observation
node_row = record {
  id = 7;
  source = Source.agent;
  bundle_id = [];
  window_title = [];
  binary_name = codes "node";
  cwd = rooted_path dirs;
  space_id = [];
  first_seen = 100;
}

retag_filter-match_one_example :
    retag_filter sqlite (params_of narrow) node_row ≡ match_one (observed node_row) narrow
unfolding validate_cwd_pattern trim_right has_char
retag_filter-match_one_example =
    retag_filter-match_one sqlite narrow node_row dirs refl dirs-IsComponent refl (refl, refl)
