-- ===== src/Daemon/Cache/Arming.antt =====
-- What arms and disarms a project, and the counters that Status shows beside armed projects.
use antitimely.Prelude.{ℕ, ◌≡◌, refl, true, false, List, [], ◌∷◌, arith, ==_ne}
use antitimely.Daemon.Cache.{
  Cache, CacheSnapshot, new_cache, add_suppressed, mark_project_active, arm_all_projects,
  arm_project, disarm_project, store_preserving_runtime,
}

-- The mutations that the daemon makes.
pub data CacheOp : Type 0 where
  suppress activate arm disarm : ℕ → CacheOp
  arm_all : List ℕ → CacheOp
  reload : CacheSnapshot → CacheOp

unfoldable pub apply : CacheOp → Cache → Cache
apply (suppress i) c = add_suppressed i c
apply (activate i) c = mark_project_active i c
apply (arm i) c = arm_project i c
apply (disarm i) c = disarm_project i c
apply (arm_all is) c = arm_all_projects is c
apply (reload s) c = store_preserving_runtime s c

unfoldable pub run : List CacheOp → Cache → Cache
run [] c = c
run (op ∷ ops) c = run ops (apply op c)

-- A project that is not armed has no suppressed ticks.
abbrev pub IsTidy : Cache → Type 0
IsTidy c = (i : ℕ) → c.snap.armed_projects i ≡ false → c.suppressed i ≡ 0

-- A tick is suppressed for a project that is armed at that moment.
abbrev IsDue : CacheOp → Cache → Type 0
IsDue (suppress i) c = c.snap.armed_projects i ≡ true
IsDue _ c = Unit

abbrev pub AreDue : List CacheOp → Cache → Type 0
AreDue [] c = Unit
AreDue (op ∷ ops) c = IsDue op c × AreDue ops (apply op c)

apply-IsTidy : (op : CacheOp) (c : Cache) → IsDue op c → IsTidy c → IsTidy (apply op c)
unfolding apply add_suppressed mark_project_active arm_all_projects arm_project disarm_project
    store_preserving_runtime
apply-IsTidy (suppress i) c due h j e = ground (arith, h j)
apply-IsTidy (activate i) c due h j e = ground (arith, h j)
apply-IsTidy (arm i) c due h j e = ground (arith, h j)
apply-IsTidy (disarm i) c due h j e = ground (arith, h j)
apply-IsTidy (arm_all []) c due h j e = h j e
apply-IsTidy (arm_all (i ∷ is)) c due h j e = refl
apply-IsTidy (reload s) c due h j e = h j e

-- Where only armed projects have suppressed ticks, so it stays over every sequence of arming,
-- disarming, resuming, reloading and counting a suppressed tick, when each tick is counted for a
-- project that is armed at that moment.
pub run-IsTidy : (ops : List CacheOp) (c : Cache) → AreDue ops c → IsTidy c → IsTidy (run ops c)
unfolding run
run-IsTidy [] c due h = h
run-IsTidy (op ∷ ops) c (now, later) h = run-IsTidy ops (apply op c) later (apply-IsTidy op c now h)

pub new_cache-IsTidy : IsTidy new_cache
unfolding new_cache
new_cache-IsTidy i e = refl

-- The operations that may change whether a project is armed.
abbrev pub Touches : ℕ → CacheOp → Type 0
Touches i (arm j) = i ≡ j
Touches i (disarm j) = i ≡ j
Touches i (arm_all []) = ⊥
Touches i (arm_all (j ∷ js)) = Unit
Touches i _ = ⊥

-- Whether a project is armed changes only where it is armed or disarmed itself, or a list of projects
-- that is not empty is armed: a reload of the rules and the allowlist keeps it.
pub armed-apply :
    (i : ℕ) (op : CacheOp) (c : Cache)
    → ¬ Touches i op
    → (apply op c).snap.armed_projects i ≡ c.snap.armed_projects i
unfolding apply add_suppressed mark_project_active arm_all_projects arm_project disarm_project
    store_preserving_runtime
armed-apply i (suppress j) c h = ground arith
armed-apply i (activate j) c h = ground arith
armed-apply i (arm j) c h = ground (arith, ==_ne i j h)
armed-apply i (disarm j) c h = ground (arith, ==_ne i j h)
armed-apply i (arm_all []) c h = refl
armed-apply i (arm_all (j ∷ js)) c h = absurd (h tt)
armed-apply i (reload s) c h = refl
