-- ===== src/Retro/Parity.antt =====
-- The sweep and the live matcher agree on the patterns that `ValidateCwdPattern` lets through.
use mathlib.Core.List.{append_assoc}
use antitimely.Prelude.{
  ◌+◌, ◌≡◌, refl, sym, ◌∙◌, inl, inr, Bool, true, false, ◌&&◌, ◌||◌, Option, none, some, List, [],
  ◌∷◌, ◌++◌, arith, length, length-append, All, Bool-cases,
}
use antitimely.Prelude.Text.{Str, str_eq, has_char, has_prefix, trim_right}
use antitimely.Domain.Path.{slash, rooted_path}
use antitimely.Domain.Glob.{asterisk}
use antitimely.Domain.Cwd.{matches_cwd, is_nil, star_final, validate_cwd_pattern}
use antitimely.Domain.Cwd.Walk.{IsComponent, any_ancestor, matches_cwd-glob}
use antitimely.Retro.{Sqlite, is_plain, anything, cwd_clause}
use antitimely.Domain.Signal.{RuleSpec}
use antitimely.Domain.Rules.{match_one, asks}
use antitimely.Store.Tables.{Observation, observed}
use antitimely.Retro.{RetagParams, retag_filter}
use antitimely.Retro.Prefix.{
  matches-starts, starts-anything, matches-prefix, is_plain-append, is_plain-trim, has_char-trim,
  substr-prefix, str_eq-nil, star_final-Split, has_char-last, any_ancestor-prefix, Split,
}

abbrev deeper : Str
deeper = slash ∷ asterisk ∷ []

module _ (db : Sqlite) (q s : Str) (plain : is_plain (q ++ asterisk ∷ []) ≡ true)
    (starless : has_char asterisk q ≡ false) where
  glob-prefix : db.glob (q ++ asterisk ∷ []) s ≡ has_prefix s q
  glob-prefix =
      db.glob_plain (q ++ asterisk ∷ []) s plain
      ∙ matches-starts anything q s starless
      ∙ starts-anything q s

  glob-deeper : db.glob ((q ++ asterisk ∷ []) ++ deeper) s ≡ true → has_prefix s q ≡ true
  glob-deeper h = matches-prefix q (asterisk ∷ deeper) s starless (
      rw (db.glob_plain _ s (is_plain-append (q ++ asterisk ∷ []) deeper plain refl), append_assoc)
        at h)

  -- GLOB with and without the tail of a deeper path is one prefix test.
  glob-either :
      (db.glob (q ++ asterisk ∷ []) s || db.glob ((q ++ asterisk ∷ []) ++ deeper) s)
      ≡ has_prefix s q
  glob-either = rw glob-prefix (ground (arith, glob-deeper))

module _ (db : Sqlite) (pattern : Str) (s : Str) where
  cwd_clause-literal :
      has_char asterisk (trim_right slash pattern) ≡ false
      → cwd_clause db pattern s ≡ matches_cwd pattern s
  unfolding cwd_clause matches_cwd
  cwd_clause-literal h =
      let p = trim_right slash pattern in
      let e : length p + 1 ≡ length (p ++ slash ∷ []) =
        omega (arith, length-append p (slash ∷ [])) in
      rw (str_eq-nil p, h, ← has_char-trim pattern, h, e, substr-prefix (p ++ slash ∷ []) s) refl

  cwd_clause-glob :
      has_char asterisk (trim_right slash pattern) ≡ true
      → cwd_clause db pattern s
        ≡ (db.glob (trim_right slash pattern) s || db.glob (trim_right slash pattern ++ deeper) s)
  unfolding cwd_clause
  cwd_clause-glob h =
      rw (str_eq-nil (trim_right slash pattern), ← has_char-trim pattern, h)
        (ground (arith, nil_has_none (trim_right slash pattern)))
    where
      nil_has_none : (p : Str) → is_nil p ≡ true → has_char asterisk p ≡ false
      nil_has_none [] e = unfold has_char in refl
      nil_has_none (c ∷ p) e = cc

glob_agrees :
    (db : Sqlite) (p : Str) (rs : List Str)
    → is_plain p ≡ true
    → has_char slash p ≡ true
    → All IsComponent rs
    → Split p
    → (db.glob p (rooted_path rs) || db.glob (p ++ deeper) (rooted_path rs)) ≡ any_ancestor p rs
glob_agrees db p rs plain slashed h (q, e, starless) = rw e (
    glob-either db q (rooted_path rs) (rw e at plain) starless
    ∙ sym (
        any_ancestor-prefix q (rw e at plain) starless (sym (has_char-last q) ∙ (rw e at slashed))
          rs h))

-- A valid pattern has a slash, and a star only at its end.
valid_parts :
    (pattern : Str)
    → validate_cwd_pattern pattern ≡ none
    → (has_char slash (trim_right slash pattern) ≡ true)
      × (star_final (trim_right slash pattern) ≡ true)
unfolding validate_cwd_pattern
valid_parts pattern h = ground arith

-- On a clean absolute directory, the sweep selects by a valid pattern without `?`, `[` and
-- backslash exactly where the live matcher covers the directory with it.
pub cwd_clause-matches_cwd :
    (db : Sqlite) (pattern : Str) (rs : List Str)
    → is_plain pattern ≡ true
    → validate_cwd_pattern pattern ≡ none
    → All IsComponent rs
    → cwd_clause db pattern (rooted_path rs) ≡ matches_cwd pattern (rooted_path rs)
cwd_clause-matches_cwd db pattern rs plain valid h =
    elim (Bool-cases (has_char asterisk (trim_right slash pattern))) [
      | inr e ↦ cwd_clause-literal db pattern (rooted_path rs) e
      | inl e ↦
          let (slashed, final) = valid_parts pattern valid in
          let p = trim_right slash pattern in
          cwd_clause-glob db pattern (rooted_path rs) e
          ∙ glob_agrees db p rs (is_plain-trim pattern plain) slashed h (star_final-Split p final e)
          ∙ sym (matches_cwd-glob pattern rs h e)
    ]

-- The sweep's parameters for a rule without a title clause.
abbrev pub params_of : RuleSpec → RetagParams
params_of r = record {
  project_id = r.project_id;
  bundle_id = r.match_bundle_id;
  window_title = none;
  binary_name = r.match_binary_name;
  space_id = r.match_space_id;
  cwd = r.match_cwd_prefix;
}

-- The cwd clause, if there is one, passed `ValidateCwdPattern` and has no `?`, `[` and backslash.
abbrev pub IsSound : Option Str → Type 0
IsSound none = Unit
IsSound (some p) = (is_plain p ≡ true) × (validate_cwd_pattern p ≡ none)

asks_cwd :
    (db : Sqlite) (c : Option Str) (rs : List Str)
    → All IsComponent rs
    → IsSound c
    → asks c (λ v. cwd_clause db v (rooted_path rs)) ≡ asks c (λ v. matches_cwd v (rooted_path rs))
asks_cwd db none rs h sound = refl
asks_cwd db (some p) rs h sound = cwd_clause-matches_cwd db p rs sound.0 sound.1 h

and_swap : (a b c d : Bool) → (a && true && b && c && d) ≡ (a && true && b && d && c)
and_swap a b c d = ground arith

-- For a rule with no title clause, the sweep takes an observation of a clean absolute directory
-- exactly when the live matcher gives such a signal to the rule.
pub retag_filter-match_one :
    (db : Sqlite) (r : RuleSpec) (o : Observation) (rs : List Str)
    → o.cwd ≡ rooted_path rs
    → All IsComponent rs
    → r.match_title_substr ≡ none
    → IsSound r.match_cwd_prefix
    → retag_filter db (params_of r) o ≡ match_one (observed o) r
unfolding retag_filter match_one
retag_filter-match_one db r o rs at_rs clean untitled sound =
    rw (untitled, at_rs, asks_cwd db r.match_cwd_prefix rs clean sound)
      (and_swap (asks r.match_bundle_id (λ v. str_eq o.bundle_id v))
        (asks r.match_binary_name (λ v. str_eq o.binary_name v))
        (asks r.match_space_id (λ v. str_eq o.space_id v))
        (asks r.match_cwd_prefix (λ v. matches_cwd v (rooted_path rs))))
