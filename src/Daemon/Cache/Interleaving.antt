-- ===== src/Daemon/Cache/Interleaving.antt =====
-- The calls on the cache of internal/daemon/cache.go under interleaving: the compare-and-swap loops, the
-- counters that some of them clear afterwards under the mutex, `AddSuppressed`, and `Store`.
use antitimely.Prelude.{
  All, each_entry, ℕ, suc, ◌+◌, ◌≤◌, ◌≡◌, refl, subst, ◌∙◌, ◌≢◌, inl, inr, true, false, Option,
  none, some, List, [], ◌∷◌, ◌==◌, arith, In, ==_refl, ap, sym, ==_iff, Bool-cases, if◌then◌else◌,
}
use antitimely.Prelude.Maps.{update}
use antitimely.Daemon.Cache.{
  CacheSnapshot, mark_project_active, arm_all_projects, arm_project, disarm_project,
  store_preserving_runtime, clear_suppressed, set_of,
}
use antitimely.Daemon.Cache.Arming.{CacheOp, apply}

pub data Call : Type 0 where
  mutate : CacheOp → Call
  store : CacheSnapshot → Call

-- The body of a loop for the snapshot that it loaded: the next snapshot, or a return.
unfoldable pub attempt : CacheOp → CacheSnapshot → Option CacheSnapshot
attempt (CacheOp.suppress i) cur = none
attempt (CacheOp.activate i) cur =
    if cur.paused_project_ids i
    then some (record cur { paused_project_ids = update i false cur.paused_project_ids })
    else none
attempt (CacheOp.arm i) cur =
    if cur.armed_projects i
    then none
    else some (record cur { armed_projects = update i true cur.armed_projects })
attempt (CacheOp.disarm i) cur =
    if cur.armed_projects i
    then some (record cur { armed_projects = update i false cur.armed_projects })
    else none
attempt (CacheOp.arm_all []) cur = none
attempt (CacheOp.arm_all (i ∷ is)) cur = some (record cur { armed_projects = set_of (i ∷ is) })
attempt (CacheOp.reload next) cur = some (record next { armed_projects = cur.armed_projects })

-- What a call does to the counters after its swap.
unfoldable pub clear : CacheOp → (ℕ → ℕ) → ℕ → ℕ
clear (CacheOp.arm i) m = update i 0 m
clear (CacheOp.disarm i) m = update i 0 m
clear (CacheOp.arm_all is) m = λ _. 0
clear _ m = m

-- The calls that enter a loop.
abbrev IsLoop : CacheOp → Type 0
IsLoop (CacheOp.suppress i) = ⊥
IsLoop (CacheOp.arm_all []) = ⊥
IsLoop _ = Unit

-- Where one call stands: not begun, holding the pointer that it loaded, with its swap made and the
-- counters still to clear, or returned.
pub data Pc : Type 0 where
  fresh swapped done : Pc
  holding : ℕ → CacheSnapshot → Pc

abbrev pub HasLanded : Pc → Type 0
HasLanded swapped = Unit
HasLanded done = Unit
HasLanded _ = ⊥

-- The pointer's value changes with each swap, so it is a version; the changes of the pointer are
-- logged by caller, the newest first.
pub record Shared : Type 0 where
  pub version : ℕ
  pub snap : CacheSnapshot
  pub suppressed : ℕ → ℕ
  pub log : List ℕ
  pub pc : ℕ → Pc

abbrev landed : ℕ → Pc → CacheSnapshot → Shared → Shared
landed t p next s = record s {
  version = suc s.version;
  snap = next;
  log = t ∷ s.log;
  pc = update t p s.pc;
}

-- What each caller calls.
module _ (calls : ℕ → Call) where
  pub data Step : Shared → Shared → Type 0 where
    loads :
        (s : Shared) (t : ℕ) (op : CacheOp)
        → s.pc t ≡ Pc.fresh
        → calls t ≡ mutate op
        → IsLoop op
        → Step s (record s { pc = update t (holding s.version s.snap) s.pc })
    skips :
        (s : Shared) (t : ℕ)
        → s.pc t ≡ Pc.fresh
        → calls t ≡ mutate (CacheOp.arm_all [])
        → Step s (record s { pc = update t Pc.done s.pc })
    returns :
        (s : Shared) (t v : ℕ) (cur : CacheSnapshot) (op : CacheOp)
        → s.pc t ≡ holding v cur
        → calls t ≡ mutate op
        → attempt op cur ≡ none
        → Step s (record s { pc = update t Pc.done s.pc })
    swaps :
        (s : Shared) (t v : ℕ) (cur next : CacheSnapshot) (op : CacheOp)
        → s.pc t ≡ holding v cur
        → calls t ≡ mutate op
        → attempt op cur ≡ some next
        → v ≡ s.version
        → Step s (landed t Pc.swapped next s)
    retries :
        (s : Shared) (t v : ℕ) (cur next : CacheSnapshot) (op : CacheOp)
        → s.pc t ≡ holding v cur
        → calls t ≡ mutate op
        → attempt op cur ≡ some next
        → v ≢ s.version
        → Step s (record s { pc = update t Pc.fresh s.pc })
    clears :
        (s : Shared) (t : ℕ) (op : CacheOp)
        → s.pc t ≡ Pc.swapped
        → calls t ≡ mutate op
        → Step s (record s { suppressed = clear op s.suppressed; pc = update t Pc.done s.pc })
    stores :
        (s : Shared) (t : ℕ) (next : CacheSnapshot)
        → s.pc t ≡ Pc.fresh
        → calls t ≡ store next
        → Step s (landed t Pc.done next s)
    adds :
        (s : Shared) (t i : ℕ)
        → s.pc t ≡ Pc.fresh
        → calls t ≡ mutate (CacheOp.suppress i)
        → Step s (record s {
          suppressed = update i (s.suppressed i + 1) s.suppressed;
          pc = update t Pc.done s.pc;
        })

  pub data Reach (s : Shared) : Shared → Type 0 where
    here : Reach s s
    then_step : {t u : Shared} → Reach s t → Step t u → Reach s u

  -- A caller's operation of the cache on its own, and the logged calls one after the other, the last
  -- of the list first.
  abbrev pub alone : Call → CacheSnapshot → CacheSnapshot
  alone (mutate op) s = (apply op (record { snap = s; suppressed = λ _. 0 })).snap
  alone (store next) s = next

  abbrev pub replay : List ℕ → CacheSnapshot → CacheSnapshot
  replay [] s = s
  replay (t ∷ ts) s = alone (calls t) (replay ts s)

  abbrev pub Once : List ℕ → Type 0
  Once [] = Unit
  Once (t ∷ ts) = (¬ In t ts) × Once ts

  pub record Inv (init : CacheSnapshot) (s : Shared) : Type 0 where
    pub serial : s.snap ≡ replay s.log init
    pub held :
        (t v : ℕ) (cur : CacheSnapshot)
        → s.pc t ≡ holding v cur
        → (v ≤ s.version) × (v ≡ s.version → cur ≡ s.snap)
    pub finished : (t : ℕ) → In t s.log → HasLanded (s.pc t)
    pub once : Once s.log

  -- A loop's swap does what the operation does on its own.
  attempt-apply :
      (op : CacheOp) (cur next : CacheSnapshot)
      → attempt op cur ≡ some next
      → next ≡ alone (mutate op) cur
  unfolding attempt apply mark_project_active arm_all_projects arm_project disarm_project
      store_preserving_runtime clear_suppressed
  attempt-apply (CacheOp.suppress i) cur next e = absurd (cc e)
  attempt-apply (CacheOp.activate i) cur next e = ground arith
  attempt-apply (CacheOp.arm i) cur next e = ground arith
  attempt-apply (CacheOp.disarm i) cur next e = ground arith
  attempt-apply (CacheOp.arm_all []) cur next e = absurd (cc e)
  attempt-apply (CacheOp.arm_all (i ∷ is)) cur next e = cc e
  attempt-apply (CacheOp.reload after) cur next e = cc e

  module _ (init : CacheSnapshot) where
    loads-held :
        (s : Shared) (t : ℕ)
        → Inv init s
        → (t' v : ℕ) (cur : CacheSnapshot)
        → update t (holding s.version s.snap) s.pc t' ≡ holding v cur
        → (v ≤ s.version) × (v ≡ s.version → cur ≡ s.snap)
    loads-held s t inv t' v cur e = elim (Bool-cases (t' == t)) [
      | inl h ↦ ground arith
      | inr h ↦ inv.held t' v cur (rw h at e)
    ]

    other-held :
        (s : Shared) (t : ℕ) (p : Pc)
        → ((v : ℕ) (cur : CacheSnapshot) → p ≢ holding v cur)
        → Inv init s
        → (t' v : ℕ) (cur : CacheSnapshot) → update t p s.pc t' ≡ holding v cur
        → (v ≤ s.version) × (v ≡ s.version → cur ≡ s.snap)
    other-held s t p free inv t' v cur e = elim (Bool-cases (t' == t)) [
      | inl h ↦ absurd (free v cur (rw h at e))
      | inr h ↦ inv.held t' v cur (rw h at e)
    ]

    -- A caller whose change has not gone through is not in the log.
    not-logged : (s : Shared) (t : ℕ) → Inv init s → ¬ HasLanded (s.pc t) → ¬ In t s.log
    not-logged s t inv ne i = ne (inv.finished t i)

    -- A caller that is not in the log may go anywhere; any caller may land.
    update-finished :
        (s : Shared) (t : ℕ) (p : Pc)
        → Inv init s
        → ¬ HasLanded (s.pc t)
        → (t' : ℕ) → In t' s.log
        → HasLanded (update t p s.pc t')
    update-finished s t p inv ne t' i = elim (Bool-cases (t' == t)) [
      | inl h ↦ absurd (not-logged s t inv ne (subst (λ x. In x s.log) ((==_iff t' t).0 h) i))
      | inr h ↦ rw h (inv.finished t' i)
    ]

    landed-finished :
        (s : Shared) (t : ℕ) (p : Pc)
        → Inv init s
        → HasLanded p
        → (t' : ℕ) → In t' (t ∷ s.log)
        → HasLanded (update t p s.pc t')
    landed-finished s t p inv l t' i = elim (Bool-cases (t' == t)) [
      | inl h ↦ rw h l
      | inr h ↦
          rw h (elim i [ inl g ↦ absurd (cc (rw (g, ==_refl t) at h)) | inr j ↦ inv.finished t' j ])
    ]

    landed-Inv :
        (s : Shared) (t : ℕ) (p : Pc) (next : CacheSnapshot)
        → Inv init s
        → ((v : ℕ) (cur : CacheSnapshot) → p ≢ holding v cur)
        → HasLanded p
        → ¬ HasLanded (s.pc t)
        → next ≡ alone (calls t) (replay s.log init)
        → Inv init (landed t p next s)
    landed-Inv s t p next inv free l ne e = record {
      serial = e;
      held = λ t' v' cur' f.
          let (le, _) = other-held s t p free inv t' v' cur' f in
          (omega arith, λ g. absurd (omega arith));
      finished = landed-finished s t p inv l;
      once = (not-logged s t inv ne, inv.once);
    }

    -- A step that leaves the pointer alone.
    quiet-Inv :
        (s : Shared) (t : ℕ) (p : Pc) (m : ℕ → ℕ)
        → Inv init s
        → ((v : ℕ) (cur : CacheSnapshot) → p ≢ holding v cur)
        → ((t' : ℕ) → In t' s.log → HasLanded (update t p s.pc t'))
        → Inv init (record s { suppressed = m; pc = update t p s.pc })
    quiet-Inv s t p m inv free fin = record {
      serial = inv.serial;
      held = other-held s t p free inv;
      finished = fin;
      once = inv.once;
    }

    alone-at :
        (t : ℕ) (call : Call) (s : CacheSnapshot)
        → calls t ≡ call
        → alone call s ≡ alone (calls t) s
    alone-at t call s e = ap (λ c. alone c s) (sym e)

    unlanded : (s : Shared) (t : ℕ) {p : Pc} → s.pc t ≡ p → ¬ HasLanded p → ¬ HasLanded (s.pc t)
    unlanded s t e n l = n (subst HasLanded e l)

    Step-Inv : {s u : Shared} → Step s u → Inv init s → Inv init u
    Step-Inv (loads s t op e c l) inv = record {
      serial = inv.serial;
      held = loads-held s t inv;
      finished = update-finished s t _ inv (unlanded s t e (λ x. x));
      once = inv.once;
    }
    Step-Inv (skips s t e c) inv =
        quiet-Inv s t Pc.done s.suppressed inv (λ v cur d. cc)
          (λ t' i. landed-finished s t Pc.done inv tt t' (inr i))
    Step-Inv (returns s t v cur op e c n) inv =
        quiet-Inv s t Pc.done s.suppressed inv (λ v cur d. cc)
          (λ t' i. landed-finished s t Pc.done inv tt t' (inr i))
    Step-Inv (swaps s t v cur next op e c n same) inv =
        landed-Inv s t Pc.swapped next inv (λ v cur d. cc) tt (unlanded s t e (λ x. x))
          (attempt-apply op cur next n
            ∙ ap (alone (mutate op)) ((inv.held t v cur e).1 same ∙ inv.serial)
            ∙ alone-at t (mutate op) (replay s.log init) c)
    Step-Inv (retries s t v cur next op e c n stale) inv =
        quiet-Inv s t Pc.fresh s.suppressed inv (λ v cur d. cc)
          (update-finished s t _ inv (unlanded s t e (λ x. x)))
    Step-Inv (clears s t op e c) inv =
        quiet-Inv s t Pc.done (clear op s.suppressed) inv (λ v cur d. cc)
          (λ t' i. landed-finished s t Pc.done inv tt t' (inr i))
    Step-Inv (stores s t next e c) inv =
        landed-Inv s t Pc.done next inv (λ v cur d. cc) tt (unlanded s t e (λ x. x))
          (alone-at t (store next) (replay s.log init) c)
    Step-Inv (adds s t i e c) inv =
        quiet-Inv s t Pc.done (update i (s.suppressed i + 1) s.suppressed) inv (λ v cur d. cc)
          (λ t' i. landed-finished s t Pc.done inv tt t' (inr i))

    abbrev pub start : Shared
    start = record { version = 0; snap = init; suppressed = λ _. 0; log = []; pc = λ _. Pc.fresh }

    start-Inv : Inv init start
    start-Inv = record {
      serial = refl;
      held = λ t v cur e. cc;
      finished = λ t i. absurd i;
      once = tt;
    }

    Reach-Inv : {s : Shared} → Reach start s → Inv init s
    Reach-Inv here = start-Inv
    Reach-Inv (then_step r st) = Step-Inv st (Reach-Inv r)

-- However calls of `MarkProjectActive`, `ArmAllProjects`, `ArmProject`, `DisarmProject`,
-- `StorePreservingRuntime`, `Store` and `AddSuppressed` interleave, the snapshot is what the operations
-- whose change of the pointer went through give one after the other, in the order of those changes:
-- no update is lost, and none is applied twice.
pub Reach-serial :
    (calls : ℕ → Call) (init : CacheSnapshot) (s : Shared)
    → Reach calls (start calls init) s
    → (s.snap ≡ replay calls s.log init) × Once calls s.log × All (λ t. HasLanded (s.pc t)) s.log
Reach-serial calls init s r =
    let inv = Reach-Inv calls init r in
    (inv.serial, inv.once, each_entry (λ t. HasLanded (s.pc t)) s.log inv.finished)
