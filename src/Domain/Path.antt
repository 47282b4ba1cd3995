-- ===== src/Domain/Path.antt =====
-- `path.Clean` and `path.Dir` of the Go library, which the ancestor walk of `MatchesCwd` steps by.
use antitimely.Prelude.{ℕ, Bool, false, ◌||◌, List, [], ◌∷◌, ◌++◌, ◌==◌, if◌then◌else◌}
use antitimely.Prelude.Text.{Str, str_eq}

abbrev pub slash : ℕ
slash = b'/'

abbrev pub dot : Str
dot = b'.' ∷ []

abbrev pub dot_dot : Str
dot_dot = b'.' ∷ b'.' ∷ []

-- The texts between the slashes; a text without a slash is one segment.
abbrev cons_head : ℕ → List Str → List Str
cons_head c [] = (c ∷ []) ∷ []
cons_head c (s ∷ ss) = (c ∷ s) ∷ ss

unfoldable pub segments : Str → List Str
segments [] = [] ∷ []
segments (c ∷ s) = if c == slash then [] ∷ segments s else cons_head c (segments s)

-- One segment onto the cleaned ones, innermost first: "" and "." are dropped, ".." takes the last
-- one away, and stays only where the path is relative and has none to take.
drop_up : Bool → List Str → List Str
drop_up rooted [] = if rooted then [] else dot_dot ∷ []
drop_up rooted (s ∷ ss) = if str_eq s dot_dot then dot_dot ∷ s ∷ ss else ss

unfoldable pub clean_step : Bool → List Str → Str → List Str
unfolding drop_up str_eq
clean_step rooted acc s =
    if str_eq s [] || str_eq s dot
    then acc
    else if str_eq s dot_dot
    then drop_up rooted acc
    else s ∷ acc

unfoldable pub clean_onto : Bool → List Str → List Str → List Str
unfolding clean_step
clean_onto rooted acc [] = acc
clean_onto rooted acc (s ∷ ss) = clean_onto rooted (clean_step rooted acc s) ss

abbrev pub is_rooted : Str → Bool
is_rooted [] = false
is_rooted (c ∷ s) = c == slash

-- "/c/b/a" for the segments a, b, c: the text of a path is built from its innermost segment.
unfoldable pub below_root : List Str → Str
below_root [] = []
below_root (s ∷ ss) = below_root ss ++ slash ∷ s

abbrev pub rooted_path : List Str → Str
rooted_path [] = slash ∷ []
rooted_path (s ∷ ss) = below_root (s ∷ ss)

abbrev drop_slash : Str → Str
drop_slash [] = dot
drop_slash (c ∷ s) = s

-- `path.Clean`
unfoldable pub clean : Str → Str
unfolding clean_onto segments below_root
clean p =
    let kept = clean_onto (is_rooted p) [] (segments p) in
    if is_rooted p then rooted_path kept else drop_slash (below_root kept)

-- The text up to its last slash, that slash included.
unfoldable pub dir_part : Str → Str
dir_part [] = []
dir_part (c ∷ s) = elim (dir_part s) [ [] ↦ if c == slash then c ∷ [] else [] | d ∷ r ↦ c ∷ d ∷ r ]

-- `path.Dir`
unfoldable pub path_dir : Str → Str
unfolding clean dir_part
path_dir p = clean (dir_part p)
