-- ===== src/Domain/Cwd.antt =====
-- internal/domain/match.go: `MatchesCwd` and `ValidateCwdPattern`.

pub mod Walk
use antitimely.Prelude.{
  ℕ, zero, suc, ◌+◌, ◌≡◌, Bool, true, false, not, ◌&&◌, ◌||◌, Option, none, some, List, [], ◌∷◌,
  ◌++◌, ◌==◌, if◌then◌else◌, length,
}
use antitimely.Prelude.Text.{Str, str_eq, has_prefix, has_char, trim_right}
use antitimely.Domain.Path.{slash, path_dir}
use antitimely.Domain.Glob.{asterisk, path_match}

-- The loop of `MatchesCwd`: the directory, then each of its ancestors, until `path.Dir` moves no
-- more. `none` is a walk that ran out of fuel.
unfoldable pub ancestor_matches : ℕ → Str → Str → Option Bool
ancestor_matches zero p cur = none
ancestor_matches (suc fuel) p cur =
    let parent = path_dir cur in
    let above = ancestor_matches fuel p parent in
    if path_match p cur then some true else if str_eq parent cur then some false else above

abbrev pub is_nil : Str → Bool
is_nil [] = true
is_nil (c ∷ s) = false

-- Each step but the last shortens a path, except that "" goes to ".".
abbrev pub walk_fuel : Str → ℕ
walk_fuel cwd = length cwd + 2

abbrev or_false : Option Bool → Bool
or_false none = false
or_false (some b) = b

unfoldable pub matches_cwd : Str → Str → Bool
matches_cwd pattern cwd =
    let p = trim_right slash pattern in
    if is_nil p
    then false
    else if not (has_char asterisk p)
    then str_eq cwd p || has_prefix cwd (p ++ slash ∷ [])
    else or_false (ancestor_matches (walk_fuel cwd) p cwd)

pub data PatternError : Type 0 where
  empty_pattern no_slash star_not_final : PatternError

-- The first star, if there is one, is the last character.
unfoldable pub star_final : Str → Bool
star_final [] = true
star_final (c ∷ s) = if c == asterisk then is_nil s else star_final s

-- `none` is the nil error.
unfoldable pub validate_cwd_pattern : Str → Option PatternError
unfolding star_final
validate_cwd_pattern pattern =
    let p = trim_right slash pattern in
    if is_nil p
    then some empty_pattern
    else if not (has_char slash p)
    then some no_slash
    else if not (star_final p)
    then some star_not_final
    else none
