-- ===== src/Domain/Cwd/Walk.antt =====
-- The ancestor walk of `MatchesCwd` over clean absolute paths, which `path.Dir` takes apart one
-- directory at a time. Such a path is given by its directories, innermost first.
use mathlib.Core.List.{append_assoc}
use antitimely.Prelude.{
  ℕ, zero, suc, ◌≤◌, ◌<◌, ◌≡◌, refl, ap, ◌≢◌, inl, inr, Bool, true, false, ◌||◌, some, List, [],
  ◌∷◌, ◌++◌, arith, length, length-append, All, Bool-cases,
}
use antitimely.Prelude.Text.{Str, str_eq, str_eq_iff, str_eq_refl, has_char, trim_right}
use antitimely.Domain.Path.{
  slash, dot, dot_dot, segments, clean_step, clean_onto, clean, path_dir, dir_part, below_root,
  rooted_path, is_rooted,
}
use antitimely.Domain.Glob.{asterisk, path_match}
use antitimely.Domain.Cwd.{ancestor_matches, walk_fuel, matches_cwd, is_nil}

-- A directory's name: not empty, no slash in it, and neither "." nor "..".
pub record IsComponent (c : Str) : Type 0 where
  pub no_slash : has_char slash c ≡ false
  pub not_empty : str_eq c [] ≡ false
  pub not_dot : str_eq c dot ≡ false
  pub not_dot_dot : str_eq c dot_dot ≡ false

segments-ne : (s : Str) → segments s ≢ []
unfolding segments
segments-ne [] e = cc
segments-ne (c ∷ s) e = ground arith

segments-append : (s t : Str) → segments (s ++ slash ∷ t) ≡ segments s ++ segments t
unfolding segments
segments-append [] t = ground arith
segments-append (c ∷ s) t = ground (arith, segments-append s t, segments-ne s)

segments-single : (c : Str) → has_char slash c ≡ false → segments c ≡ c ∷ []
unfolding segments has_char
segments-single [] h = refl
segments-single (d ∷ c) h = ground (arith, segments-single c)

clean_onto-append :
    (acc ss ts : List Str)
    → clean_onto true acc (ss ++ ts) ≡ clean_onto true (clean_onto true acc ss) ts
unfolding clean_onto
clean_onto-append acc [] ts = refl
clean_onto-append acc (s ∷ ss) ts = clean_onto-append (clean_step true acc s) ss ts

clean_onto-component :
    (acc : List Str) (c : Str) → IsComponent c → clean_onto true acc (c ∷ []) ≡ c ∷ acc
unfolding clean_onto
clean_onto-component acc c h = rw (h.not_empty, h.not_dot, h.not_dot_dot)

clean_onto-below :
    (rs : List Str) → All IsComponent rs → clean_onto true [] (segments (below_root rs)) ≡ rs
unfolding below_root
clean_onto-below [] h = unfold clean_onto segments in refl
clean_onto-below (c ∷ rs) h =
    rw
      (
        segments-append (below_root rs) c,
        segments-single c h.0.no_slash,
        clean_onto-append,
        clean_onto-below rs h.1,
      )
      (clean_onto-component rs c h.0)

is_rooted-below : (rs : List Str) (t : Str) → is_rooted (below_root rs ++ slash ∷ t) ≡ true
unfolding below_root
is_rooted-below [] t = ground arith
is_rooted-below (c ∷ rs) t = rw append_assoc (is_rooted-below rs (c ++ slash ∷ t))

dir_part-slashless : (c : Str) → has_char slash c ≡ false → dir_part c ≡ []
unfolding dir_part has_char
dir_part-slashless [] h = refl
dir_part-slashless (d ∷ c) h = ground (arith, dir_part-slashless c)

dir_part-last : (s c : Str) → has_char slash c ≡ false → dir_part (s ++ slash ∷ c) ≡ s ++ slash ∷ []
unfolding dir_part
dir_part-last [] c h = rw (dir_part-slashless c h, dir_part) (ground arith)
dir_part-last (d ∷ []) c h = rw (dir_part-last [] c h, dir_part)
dir_part-last (d ∷ e ∷ s) c h = rw (dir_part-last (e ∷ s) c h, dir_part)

-- One step of the walk takes the innermost directory away.
pub path_dir-rooted_path :
    (c : Str) (rs : List Str)
    → All IsComponent (c ∷ rs)
    → path_dir (rooted_path (c ∷ rs)) ≡ rooted_path rs
unfolding path_dir below_root
path_dir-rooted_path c rs h =
    rw
      (
        dir_part-last (below_root rs) c h.0.no_slash,
        clean,
        is_rooted-below rs [],
        segments-append (below_root rs) [],
        clean_onto-append,
        clean_onto-below rs h.1,
      )
      refl

-- A path is longer than that of its parent directory.
rooted_path-longer :
    (c : Str) (rs : List Str)
    → IsComponent c
    → length (rooted_path rs) < length (rooted_path (c ∷ rs))
unfolding below_root
rooted_path-longer [] rs h = cc (h.not_empty, str_eq_refl [])
rooted_path-longer (d ∷ c) [] h = omega arith
rooted_path-longer (d ∷ c) (e ∷ rs) h =
    omega (arith, length-append (below_root (e ∷ rs)) (slash ∷ d ∷ c))

parent-ne :
    (c : Str) (rs : List Str)
    → IsComponent c
    → str_eq (rooted_path rs) (rooted_path (c ∷ rs)) ≡ false
parent-ne c rs h = elim (Bool-cases (str_eq (rooted_path rs) (rooted_path (c ∷ rs)))) [
  | inl e ↦ absurd (omega (arith, rooted_path-longer c rs h, ap length ((str_eq_iff _ _).0 e)))
  | inr e ↦ e
]

-- Some ancestor of the path, the path itself included, matches the pattern.
abbrev pub any_ancestor : Str → List Str → Bool
any_ancestor p [] = path_match p (rooted_path [])
any_ancestor p (c ∷ rs) = path_match p (rooted_path (c ∷ rs)) || any_ancestor p rs

path_dir-root : path_dir (slash ∷ []) ≡ slash ∷ []
unfolding path_dir
path_dir-root = refl

-- The loop ends, with fuel for one step more than the path has directories.
ancestor_matches-rooted :
    (fuel : ℕ) (p : Str) (rs : List Str)
    → All IsComponent rs
    → length rs < fuel
    → ancestor_matches fuel p (rooted_path rs) ≡ some (any_ancestor p rs)
unfolding ancestor_matches
ancestor_matches-rooted zero p rs h lt = absurd (omega arith)
ancestor_matches-rooted (suc fuel) p [] h lt =
    rw (path_dir-root, str_eq_refl (slash ∷ [])) (ground arith)
ancestor_matches-rooted (suc fuel) p (c ∷ rs) h lt =
    rw
      (
        path_dir-rooted_path c rs h,
        parent-ne c rs h.0,
        ancestor_matches-rooted fuel p rs h.1 (omega arith),
      )
      (ground arith)

length-rooted : (rs : List Str) → length rs ≤ length (rooted_path rs)
unfolding below_root
length-rooted [] = omega arith
length-rooted (c ∷ rs) = omega (arith, length-below (c ∷ rs))
  where
    length-below : (rs : List Str) → length rs ≤ length (below_root rs)
    length-below [] = omega arith
    length-below (c ∷ rs) =
        omega (arith, length-below rs, length-append (below_root rs) (slash ∷ c))

-- A glob pattern covers a clean absolute directory exactly when `path.Match` accepts the directory
-- or one of its ancestors: the fuel of the walk is enough for every such directory.
pub matches_cwd-glob :
    (pattern : Str) (rs : List Str)
    → All IsComponent rs
    → has_char asterisk (trim_right slash pattern) ≡ true
    → matches_cwd pattern (rooted_path rs) ≡ any_ancestor (trim_right slash pattern) rs
unfolding matches_cwd
matches_cwd-glob pattern rs h star = ground (
  arith,
  ancestor_matches-rooted (walk_fuel (rooted_path rs)) (trim_right slash pattern) rs h,
  length-rooted rs,
  nil_has_none (trim_right slash pattern),
)
  where
    nil_has_none : (p : Str) → is_nil p ≡ true → has_char asterisk p ≡ false
    nil_has_none [] e = unfold has_char in refl
    nil_has_none (c ∷ p) e = cc
