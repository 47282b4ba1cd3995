-- ===== src/Domain/Glob.antt =====
-- `path.Match` of the Go library: its pattern syntax, read character by character, and its match.
-- A malformed pattern (an open class, a lone backslash) matches nothing, as in `MatchesCwd`, which
-- ignores the error.
use antitimely.Prelude.{
  ℕ, Bool, true, false, not, ◌&&◌, ◌||◌, Option, none, some, List, [], ◌∷◌, ◌==◌, leb,
  if◌then◌else◌,
}
use antitimely.Prelude.Text.{Str}
use antitimely.Domain.Path.{slash}

abbrev pub asterisk : ℕ
asterisk = b'*'

abbrev pub question : ℕ
question = b'?'

abbrev pub bracket : ℕ
bracket = b'['

abbrev pub backslash : ℕ
backslash = 92

pub data Term : Type 0 where
  star one : Term
  class : Bool → List (ℕ × ℕ) → Term
  lit : ℕ → Term

-- Where the reader stands: in a class it has the ranges read so far, and perhaps the start of one.
pub data Mode : Type 0 where
  top escaped opened : Mode
  ranges low_escaped : Bool → List (ℕ × ℕ) → Mode
  low high high_escaped : Bool → List (ℕ × ℕ) → ℕ → Mode

pub data Move : Type 0 where
  bad : Move
  goes : Mode → Move
  emits : Term → Mode → Move

abbrev closes : List (ℕ × ℕ) → Bool
closes [] = false
closes (r ∷ rs) = true

-- At the start of a range: `]` ends a class that has one, `-` and `]` cannot start one.
next_range : Bool → List (ℕ × ℕ) → ℕ → Move
next_range neg acc c =
    if (c == b']') && closes acc
    then emits (class neg acc) top
    else if (c == b']') || (c == b'-')
    then bad
    else if c == backslash
    then goes (low_escaped neg acc)
    else goes (low neg acc c)

next : Mode → ℕ → Move
unfolding next_range
next top c =
    if c == asterisk
    then emits star top
    else if c == question
    then emits one top
    else if c == bracket
    then goes opened
    else if c == backslash
    then goes escaped
    else emits (lit c) top
next escaped c = emits (lit c) top
next opened c = if c == b'^' then goes (ranges true []) else next_range false [] c
next (ranges neg acc) c = next_range neg acc c
next (low_escaped neg acc) c = goes (low neg acc c)
next (low neg acc lo) c =
    if c == b'-' then goes (high neg acc lo) else next_range neg ((lo, lo) ∷ acc) c
next (high neg acc lo) c =
    if (c == b']') || (c == b'-')
    then bad
    else if c == backslash
    then goes (high_escaped neg acc lo)
    else goes (ranges neg ((lo, c) ∷ acc))
next (high_escaped neg acc lo) c = goes (ranges neg ((lo, c) ∷ acc))

abbrev ends : Mode → Option (List Term)
ends top = some []
ends _ = none

abbrev put : Term → Option (List Term) → Option (List Term)
put t none = none
put t (some ts) = some (t ∷ ts)

unfoldable pub parse : Mode → Str → Option (List Term)
unfolding next
parse m [] = ends m
parse m (c ∷ s) = elim (next m c) [
  | bad ↦ none
  | goes m' ↦ parse m' s
  | emits t m' ↦ put t (parse m' s)
]

in_ranges : ℕ → List (ℕ × ℕ) → Bool
in_ranges c [] = false
in_ranges c ((lo, hi) ∷ rs) = (leb lo c && leb c hi) || in_ranges c rs

-- Some suffix, reached over characters that pass the test alone, is accepted.
unfoldable pub star_any : (ℕ → Bool) → (Str → Bool) → Str → Bool
star_any ok k [] = k []
star_any ok k (c ∷ s) = k (c ∷ s) || (ok c && star_any ok k s)

abbrev is_empty : Str → Bool
is_empty [] = true
is_empty (c ∷ s) = false

-- `*` and `?` take the characters that pass the test.
unfoldable pub matches : (ℕ → Bool) → List Term → Str → Bool
unfolding star_any in_ranges
matches ok [] s = is_empty s
matches ok (star ∷ ts) s = star_any ok (matches ok ts) s
matches ok (one ∷ ts) [] = false
matches ok (one ∷ ts) (d ∷ s) = ok d && matches ok ts s
matches ok (class neg rs ∷ ts) [] = false
matches ok (class neg rs ∷ ts) (d ∷ s) =
    (if neg then not (in_ranges d rs) else in_ranges d rs) && matches ok ts s
matches ok (lit c ∷ ts) [] = false
matches ok (lit c ∷ ts) (d ∷ s) = (c == d) && matches ok ts s

abbrev pub not_slash : ℕ → Bool
not_slash c = not (c == slash)

abbrev accepts : Str → Option (List Term) → Bool
accepts s none = false
accepts s (some ts) = matches not_slash ts s

-- `path.Match(pattern, name)` with a nil error and `true`
unfoldable pub path_match : Str → Str → Bool
unfolding parse matches
path_match pattern name = accepts name (parse top pattern)
