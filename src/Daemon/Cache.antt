-- ===== src/Daemon/Cache.antt =====
-- internal/daemon/cache.go: the snapshot that the polling loop reads, and its mutations. Each
-- mutation is a compare-and-swap loop; here it is the step of the iteration whose swap succeeds.
-- Go's sets are functions into Bool, and the map of counters is a function into numbers.
pub mod Arming
pub mod Interleaving
use antitimely.Prelude.{
  ℕ, ◌+◌, ◌≡◌, Bool, true, false, Option, none, some, List, [], ◌∷◌, ◌==◌, if◌then◌else◌,
}
use antitimely.Prelude.Text.{Str}
use antitimely.Prelude.Maps.{update}
use antitimely.Domain.Signal.{RuleSpec}

pub record CacheSnapshot : Type 0 where
  pub allowed_bundles : Str → Bool
  pub allowed_binaries : Str → Bool
  pub rules : List RuleSpec
  pub paused_project_ids : ℕ → Bool
  pub armed_projects : ℕ → Bool
  pub cwd_patterns : List Str
  pub bound_space_ids : Str → Bool

pub record Cache : Type 0 where
  pub snap : CacheSnapshot
  pub suppressed : ℕ → ℕ

abbrev nobody {ℓ} : {A : Type ℓ} → A → Bool
nobody a = false

unfoldable pub new_cache : Cache
new_cache = record {
  snap = record {
    allowed_bundles = nobody;
    allowed_binaries = nobody;
    rules = [];
    paused_project_ids = nobody;
    armed_projects = nobody;
    cwd_patterns = [];
    bound_space_ids = nobody;
  };
  suppressed = λ _. 0;
}

-- The new count is the reply too.
unfoldable pub add_suppressed : ℕ → Cache → Cache
add_suppressed i c = record c { suppressed = update i (c.suppressed i + 1) c.suppressed }

unfoldable pub clear_suppressed : ℕ → Cache → Cache
clear_suppressed i c = record c { suppressed = update i 0 c.suppressed }

unfoldable pub mark_project_active : ℕ → Cache → Cache
mark_project_active i c =
    if c.snap.paused_project_ids i
    then record c {
      snap = record (c.snap) { paused_project_ids = update i false c.snap.paused_project_ids };
    }
    else c

abbrev pub set_of : List ℕ → ℕ → Bool
set_of [] j = false
set_of (i ∷ is) j = if j == i then true else set_of is j

unfoldable pub arm_all_projects : List ℕ → Cache → Cache
arm_all_projects [] c = c
arm_all_projects (i ∷ is) c = record {
  snap = record (c.snap) { armed_projects = set_of (i ∷ is) };
  suppressed = λ _. 0;
}

unfoldable pub arm_project : ℕ → Cache → Cache
unfolding clear_suppressed
arm_project i c =
    if c.snap.armed_projects i
    then c
    else clear_suppressed i (record c {
      snap = record (c.snap) { armed_projects = update i true c.snap.armed_projects };
    })

unfoldable pub disarm_project : ℕ → Cache → Cache
unfolding clear_suppressed
disarm_project i c =
    if c.snap.armed_projects i
    then clear_suppressed i (record c {
      snap = record (c.snap) { armed_projects = update i false c.snap.armed_projects };
    })
    else c

unfoldable pub store_preserving_runtime : CacheSnapshot → Cache → Cache
store_preserving_runtime next c = record c {
  snap = record next { armed_projects = c.snap.armed_projects };
}
