-- ===== src/Retro/Prefix.antt =====
-- A plain pattern with a final star is a prefix test, for `path.Match` over the ancestors of a
-- directory as for a star that crosses slashes.
use antitimely.Prelude.{
  ℕ, ◌≡◌, refl, ap, ◌∙◌, inl, inr, Bool, true, false, ◌&&◌, ◌||◌, some, List, [], ◌∷◌, ◌++◌, map,
  arith, ◌==◌, length, All, Bool-cases,
}
use antitimely.Prelude.Text.{Str, str_eq, has_char, has_prefix, trim_right, only}
use antitimely.Domain.Path.{slash, below_root, rooted_path}
use antitimely.Domain.Glob.{asterisk, path_match, matches, star_any, parse, top, not_slash}
use antitimely.Domain.Cwd.{is_nil, star_final}
use antitimely.Domain.Cwd.Walk.{IsComponent, any_ancestor}
use antitimely.Retro.{is_plain, star_term, anything, substr_to}

-- `path.Match` reads a plain pattern as GLOB does.
parse-plain : (p : Str) → is_plain p ≡ true → parse top p ≡ some (map star_term p)
unfolding parse
parse-plain [] h = refl
parse-plain (c ∷ p) h = ground (arith, parse-plain p)

-- The text starts with the prefix, and the star after it takes all the rest.
abbrev pub all_ok : (ℕ → Bool) → Str → Bool
all_ok ok [] = true
all_ok ok (c ∷ s) = ok c && all_ok ok s

abbrev pub starts : (ℕ → Bool) → Str → Str → Bool
starts ok [] s = all_ok ok s
starts ok (d ∷ q) [] = false
starts ok (d ∷ q) (c ∷ s) = (d == c) && starts ok q s

star_any-end : (ok : ℕ → Bool) (s : Str) → star_any ok (matches ok []) s ≡ all_ok ok s
unfolding star_any matches
star_any-end ok [] = refl
star_any-end ok (c ∷ s) = ground (arith, star_any-end ok s)

pub matches-starts :
    (ok : ℕ → Bool) (q s : Str)
    → has_char asterisk q ≡ false
    → matches ok (map star_term (q ++ asterisk ∷ [])) s ≡ starts ok q s
unfolding matches has_char
matches-starts ok [] s h = star_any-end ok s
matches-starts ok (d ∷ q) [] h = ground arith
matches-starts ok (d ∷ q) (c ∷ s) h = ground (arith, matches-starts ok q s)

all-anything : (s : Str) → all_ok anything s ≡ true
all-anything [] = refl
all-anything (c ∷ s) = all-anything s

pub starts-anything : (q s : Str) → starts anything q s ≡ has_prefix s q
unfolding has_prefix
starts-anything [] [] = refl
starts-anything [] (c ∷ s) = all-anything s
starts-anything (d ∷ q) [] = refl
starts-anything (d ∷ q) (c ∷ s) = ground (arith, starts-anything q s)

-- A prefix either ends in the last directory's name or is a prefix of the parent.
starts-not_slash :
    (c : Str) (q : Str) → has_char slash c ≡ false → starts not_slash q c ≡ has_prefix c q
unfolding has_prefix has_char
starts-not_slash [] [] h = refl
starts-not_slash [] (d ∷ q) h = refl
starts-not_slash (x ∷ c) [] h = ground (arith, starts-not_slash c [])
starts-not_slash (x ∷ c) (d ∷ q) h = ground (arith, starts-not_slash c q)

has_prefix-split :
    (b q c : Str)
    → has_char slash c ≡ false
    → (starts not_slash q (b ++ slash ∷ c) || has_prefix b q) ≡ has_prefix (b ++ slash ∷ c) q
unfolding has_prefix
has_prefix-split [] [] c h = refl
has_prefix-split [] (d ∷ q) c h = ground (arith, starts-not_slash c q h)
has_prefix-split (x ∷ b) [] c h = ground arith
has_prefix-split (x ∷ b) (d ∷ q) c h = ground (arith, has_prefix-split b q c h)

-- At the root: a prefix with a slash in it is the root itself.
root-starts :
    (q : Str)
    → has_char slash q ≡ true
    → starts not_slash q (rooted_path []) ≡ has_prefix (rooted_path []) q
unfolding has_prefix has_char
root-starts [] h = cc
root-starts (d ∷ []) h = ground arith
root-starts (d ∷ e ∷ q) h = ground arith

below-root-prefix :
    (q : Str) (c : Str)
    → has_char slash q ≡ true
    → has_prefix (rooted_path []) q ≡ true
    → has_prefix (slash ∷ c) q ≡ true
unfolding has_prefix has_char
below-root-prefix [] c h k = cc
below-root-prefix (d ∷ []) c h k = ground arith
below-root-prefix (d ∷ e ∷ q) c h k = ground arith

nil-has-no-prefix : (q : Str) → has_char slash q ≡ true → has_prefix [] q ≡ false
unfolding has_prefix has_char
nil-has-no-prefix [] h = cc
nil-has-no-prefix (d ∷ q) h = refl

module _ (q : Str) (plain : is_plain (q ++ asterisk ∷ []) ≡ true)
    (starless : has_char asterisk q ≡ false) (slashed : has_char slash q ≡ true) where
  path_match-starts : (s : Str) → path_match (q ++ asterisk ∷ []) s ≡ starts not_slash q s
  unfolding path_match
  path_match-starts s =
      rw (parse-plain (q ++ asterisk ∷ []) plain) (matches-starts not_slash q s starless)

  -- The ancestor walk finds what a star that crosses slashes finds.
  pub any_ancestor-prefix :
      (rs : List Str)
      → All IsComponent rs
      → any_ancestor (q ++ asterisk ∷ []) rs ≡ has_prefix (rooted_path rs) q
  unfolding below_root
  any_ancestor-prefix [] h = path_match-starts (rooted_path []) ∙ root-starts q slashed
  any_ancestor-prefix (c ∷ []) h =
      rw (path_match-starts (slash ∷ c), path_match-starts (slash ∷ []), root-starts q slashed)
        (ground (
          arith,
          has_prefix-split [] q c h.0.no_slash,
          below-root-prefix q c slashed,
          nil-has-no-prefix q slashed,
        ))
  any_ancestor-prefix (c ∷ d ∷ rs) h =
      rw (path_match-starts (rooted_path (c ∷ d ∷ rs)), any_ancestor-prefix (d ∷ rs) h.1)
        (has_prefix-split (below_root (d ∷ rs)) q c h.0.no_slash)

is_nil-eq : (s : Str) → is_nil s ≡ true → s ≡ []
is_nil-eq [] h = refl
is_nil-eq (c ∷ s) h = cc

abbrev pub Split : Str → Type 0
Split p = (q : Str) × (p ≡ q ++ asterisk ∷ []) × (has_char asterisk q ≡ false)

Split-cons : (c : ℕ) (p : Str) → (c == asterisk) ≡ false → Split p → Split (c ∷ p)
unfolding has_char
Split-cons c p e (q, f, g) = (c ∷ q, ap (◌∷◌ c) f, ground arith)

-- A valid pattern with a star is a prefix with the star after it.
pub star_final-Split : (p : Str) → star_final p ≡ true → has_char asterisk p ≡ true → Split p
unfolding star_final has_char
star_final-Split [] h k = cc
star_final-Split (c ∷ p) h k = elim (Bool-cases (c == asterisk)) [
  | inl e ↦ ([], ground (arith, is_nil-eq p), refl)
  | inr e ↦ Split-cons c p e (star_final-Split p (ground arith) (ground arith))
]

pub has_char-last : (q : Str) → has_char slash (q ++ asterisk ∷ []) ≡ has_char slash q
unfolding has_char
has_char-last [] = refl
has_char-last (c ∷ q) = ground (arith, has_char-last q)

-- What the trimming of slashes keeps.
only-slash : (s : Str) → only slash s ≡ true → has_char asterisk s ≡ false
unfolding only has_char
only-slash [] h = refl
only-slash (c ∷ s) h = ground (arith, only-slash s)

pub has_char-trim : (s : Str) → has_char asterisk (trim_right slash s) ≡ has_char asterisk s
unfolding trim_right has_char
has_char-trim [] = refl
has_char-trim (c ∷ s) = ground (arith, has_char-trim s, only-slash s)

pub is_plain-trim : (s : Str) → is_plain s ≡ true → is_plain (trim_right slash s) ≡ true
unfolding trim_right
is_plain-trim [] h = refl
is_plain-trim (c ∷ s) h = ground (arith, is_plain-trim s)

-- The literal clause.
pub substr-prefix : (p s : Str) → str_eq (substr_to (length p) s) p ≡ has_prefix s p
unfolding has_prefix str_eq
substr-prefix [] s = refl
substr-prefix (d ∷ p) [] = refl
substr-prefix (d ∷ p) (c ∷ s) = ground (arith, substr-prefix p s)

pub str_eq-nil : (p : Str) → str_eq p [] ≡ is_nil p
unfolding str_eq
str_eq-nil [] = refl
str_eq-nil (c ∷ p) = refl

pub matches-prefix :
    (q t s : Str)
    → has_char asterisk q ≡ false
    → matches anything (map star_term (q ++ t)) s ≡ true
    → has_prefix s q ≡ true
unfolding matches has_char has_prefix
matches-prefix [] t [] h k = refl
matches-prefix [] t (c ∷ s) h k = refl
matches-prefix (d ∷ q) t [] h k = ground arith
matches-prefix (d ∷ q) t (c ∷ s) h k = ground (arith, matches-prefix q t s)

pub is_plain-append : (p t : Str) → is_plain p ≡ true → is_plain t ≡ true → is_plain (p ++ t) ≡ true
is_plain-append [] t h k = k
is_plain-append (c ∷ p) t h k = ground (arith, is_plain-append p t)
