-- ===== src/Herdr.antt =====
-- internal/herdr/herdr.go: which workspace of herdr a pane and a session belong to, read from
-- herdr's session file. The file is given decoded.
pub mod Closed
use antitimely.Prelude.{
  ℕ, ◌≡◌, Bool, true, false, not, ◌&&◌, ◌||◌, Option, none, some, List, [], ◌∷◌, ◌==◌,
  if◌then◌else◌,
}
use antitimely.Prelude.Text.{Str, str_eq}
use antitimely.Domain.Cwd.{is_nil}

pub record Space : Type 0 where
  pub id : Str
  pub name : Str

-- A workspace of the file: the tabs, with the session of each pane, which may have none.
pub record Workspace : Type 0 where
  pub id : Str
  pub custom_name : Option Str
  pub tabs : List (List (Option Str))

abbrev pub SessionFile : Type 0
SessionFile = List Workspace

-- What `os.Stat` says, the modification time and the size, and what reading and decoding gives: an
-- unreadable file is `none`, an undecodable one `some none`.
pub record View : Type 0 where
  pub stat : Option (ℕ × ℕ)
  pub read : Option (Option SessionFile)

-- `none` for `mod_time` is the zero time; an empty `path` resolves nothing.
pub record Resolver : Type 0 where
  pub path : Str
  pub mod_time : Option ℕ
  pub size : ℕ
  pub loaded : Bool
  pub warned : Bool
  pub spaces : Str → Option Space
  pub sessions : Str → Option Str

unfoldable pub new_resolver : Str → Resolver
new_resolver path = record {
  path = path;
  mod_time = none;
  size = 0;
  loaded = false;
  warned = false;
  spaces = λ i. none;
  sessions = λ u. none;
}

-- `failClosedLocked`
unfoldable pub fail_closed : Resolver → Resolver
fail_closed r = record r {
  mod_time = none;
  size = 0;
  loaded = true;
  warned = true;
  spaces = λ i. none;
  sessions = λ u. none;
}

abbrev put {ℓ} : {A : Type ℓ} → Str → A → (Str → Option A) → Str → Option A
put k v m j = if str_eq j k then some v else m j

abbrev name_of : Option Str → Str
name_of none = []
name_of (some n) = n

-- The map of workspaces; one without an id is left out.
unfoldable pub spaces_of : SessionFile → (Str → Option Space) → Str → Option Space
spaces_of [] m = m
spaces_of (w ∷ ws) m =
    if is_nil w.id
    then spaces_of ws m
    else spaces_of ws (put w.id (record { id = w.id; name = name_of w.custom_name }) m)

unfoldable pub learn_panes : Str → List (Option Str) → (Str → Option Str) → Str → Option Str
learn_panes wid [] m = m
learn_panes wid (none ∷ panes) m = learn_panes wid panes m
learn_panes wid (some u ∷ panes) m = learn_panes wid panes (if is_nil u then m else put u wid m)

unfoldable pub learn_tabs : Str → List (List (Option Str)) → (Str → Option Str) → Str → Option Str
unfolding learn_panes
learn_tabs wid [] m = m
learn_tabs wid (panes ∷ tabs) m = learn_tabs wid tabs (learn_panes wid panes m)

-- The bindings of sessions are added to those already known.
unfoldable pub learn : SessionFile → (Str → Option Str) → Str → Option Str
unfolding learn_tabs
learn [] m = m
learn (w ∷ ws) m = learn ws (if is_nil w.id then m else learn_tabs w.id w.tabs m)

unfoldable pub accept : ℕ × ℕ → SessionFile → Resolver → Resolver
unfolding spaces_of learn
accept (mtime, size) f r = record r {
  mod_time = some mtime;
  size = size;
  loaded = true;
  warned = false;
  spaces = spaces_of f (λ i. none);
  sessions = learn f r.sessions;
}

abbrev pub same_time : Option ℕ → ℕ → Bool
same_time none t = false
same_time (some s) t = s == t

-- The file, read and decoded.
unfoldable pub read_file : ℕ × ℕ → Option (Option SessionFile) → Resolver → Resolver
unfolding fail_closed accept
read_file at none r = fail_closed r
read_file at (some none) r = fail_closed r
read_file at (some (some f)) r = accept at f r

-- `reloadLocked`: a file whose time and size are those of the last good load is not read again.
unfoldable pub reload : View → Resolver → Resolver
unfolding read_file fail_closed
reload v r = if is_nil r.path then r else elim v.stat [
  | none ↦ fail_closed r
  | some at ↦
      if r.loaded && (not r.warned && (same_time r.mod_time at.0 && (at.1 == r.size)))
      then r
      else read_file at v.read r
]

-- The text before the first colon.
unfoldable pub before_colon : Str → Str
before_colon [] = []
before_colon (c ∷ s) = if c == b':' then [] else c ∷ before_colon s

-- `SpaceForPane`
unfoldable pub space_for_pane : View → Str → Resolver → Option Space × Resolver
unfolding before_colon reload
space_for_pane v pane r =
    let wid = before_colon pane in
    if is_nil wid then (none, r) else (let r' = reload v r in (r'.spaces wid, r'))

abbrev pub and_then {ℓ} : {A B : Type ℓ} → Option A → (A → Option B) → Option B
and_then none f = none
and_then (some a) f = f a

-- `SpaceForSession`
unfoldable pub space_for_session : View → Str → Resolver → Option Space × Resolver
unfolding reload
space_for_session v uuid r =
    if is_nil uuid
    then (none, r)
    else (let r' = reload v r in (and_then (r'.sessions uuid) r'.spaces, r'))

-- `Space`
unfoldable pub space : View → Str → Resolver → Option Space × Resolver
unfolding reload
space v id r = if is_nil id then (none, r) else (let r' = reload v r in (r'.spaces id, r'))
