-- ===== src/Retro.antt =====
-- internal/store/queries.sql.go, `ApplyRuleRetroactivelyCounted`: the sweep that gives a new rule's
-- project the unassigned ticks of the past. SQLite's GLOB and LIKE are parameters.
pub mod Prefix
pub mod Parity
use antitimely.Prelude.{
  ℕ, zero, suc, ◌+◌, ◌≡◌, Bool, true, false, not, ◌&&◌, ◌||◌, Option, none, some, List, [], ◌∷◌,
  ◌++◌, map, ◌==◌, if◌then◌else◌, length,
}
use antitimely.Prelude.Text.{Str, str_eq, has_char, trim_right}
use antitimely.Domain.Path.{slash}
use antitimely.Domain.Glob.{Term, star, lit, asterisk, question, bracket, backslash, matches}
use antitimely.Domain.Cwd.{is_nil}
use antitimely.Domain.Rules.{asks}
use antitimely.Store.Tables.{Observation, Tick}

-- Only the star stands for other characters, in GLOB as in `path.Match`.
abbrev pub plain_char : ℕ → Bool
plain_char c = not ((c == question) || (c == bracket) || (c == backslash))

abbrev pub is_plain : Str → Bool
is_plain [] = true
is_plain (c ∷ s) = plain_char c && is_plain s

abbrev pub star_term : ℕ → Term
star_term c = if c == asterisk then star else lit c

abbrev pub anything : ℕ → Bool
anything c = true

-- `glob pattern text` and `like pattern text` are SQLite's operators. Of GLOB the sweep relies on
-- this: on a pattern without `?` and `[`, a star stands for any text, and all else for itself.
pub record Sqlite : Type 0 where
  pub glob : Str → Str → Bool
  pub like : Str → Str → Bool
  pub glob_plain : (p s : Str) → is_plain p ≡ true → glob p s ≡ matches anything (map star_term p) s

abbrev pub substr_to : ℕ → Str → Str
substr_to zero s = []
substr_to (suc n) [] = []
substr_to (suc n) (c ∷ s) = c ∷ substr_to n s

-- The parameters of the query; `none` is a NULL sentinel, "don't care".
pub record RetagParams : Type 0 where
  pub project_id : ℕ
  pub bundle_id : Option Str
  pub window_title : Option Str
  pub binary_name : Option Str
  pub space_id : Option Str
  pub cwd : Option Str

module _ (db : Sqlite) where
  -- The CASE of the cwd clause.
  unfoldable pub cwd_clause : Str → Str → Bool
  cwd_clause pattern cwd =
      let p = trim_right slash pattern in
      if str_eq p []
      then false
      else if has_char asterisk pattern
      then db.glob p cwd || db.glob (p ++ slash ∷ asterisk ∷ []) cwd
      else str_eq cwd p || str_eq (substr_to (length p + 1) cwd) (p ++ slash ∷ [])

  -- The WHERE of the inner SELECT.
  unfoldable pub retag_filter : RetagParams → Observation → Bool
  retag_filter q o =
      asks q.bundle_id (λ v. str_eq o.bundle_id v)
      && asks q.window_title (λ v. db.like (b'%' ∷ v ++ b'%' ∷ []) o.window_title)
      && asks q.binary_name (λ v. str_eq o.binary_name v)
      && asks q.space_id (λ v. str_eq o.space_id v)
      && asks q.cwd (λ v. cwd_clause v o.cwd)

  -- `observation_id IN (SELECT id ...)`
  unfoldable pub selected : RetagParams → List Observation → ℕ → Bool
  selected q [] i = false
  selected q (o ∷ os) i = ((o.id == i) && retag_filter q o) || selected q os i

  unfoldable pub retag_tick : RetagParams → List Observation → Tick → Tick
  retag_tick q os t = elim t.project_id [
    | none ↦
        if selected q os t.observation_id then record t { project_id = some q.project_id } else t
    | some p ↦ t
  ]

  unfoldable pub apply_rule_retroactively : RetagParams → List Observation → List Tick → List Tick
  unfolding retag_tick
  apply_rule_retroactively q os ts = map (retag_tick q os) ts
