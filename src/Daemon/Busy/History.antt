-- ===== src/Daemon/Busy/History.antt =====
-- The busy classifier against the whole history of a process.
use antitimely.Prelude.{
  ℕ, ◌+◌, ◌≤◌, ◌<◌, ◌≡◌, refl, Bool, true, false, not, ◌&&◌, ◌||◌, List, [], ◌∷◌, ◌++◌, max, leb,
  if◌then◌else◌, arith, All, Bool-cases, inl, inr,
}
use antitimely.Daemon.Busy.{ActivityState, idle_state, classify}

-- One tick of a process: the bar that applied, and the CPU that the process used. A history has the
-- newest tick first.
pub record Sample : Type 0 where
  pub bar : ℕ
  pub delta : ℕ

abbrev pub is_above : Sample → Bool
is_above s = leb s.bar s.delta

-- How many of the newest ticks lay on the given side of their bars, with no break.
unfoldable pub run_of : Bool → List Sample → ℕ
run_of side [] = 0
run_of true (s ∷ h) = if is_above s then run_of true h + 1 else 0
run_of false (s ∷ h) = if is_above s then 0 else run_of false h + 1

module _ (rise_ticks fall_ticks : ℕ) where
  unfoldable pub state_after : List Sample → ActivityState
  state_after [] = idle_state
  state_after (s ∷ h) = classify rise_ticks fall_ticks s.bar s.delta (state_after h)

  -- A process works from the rise-th tick in a row above the bar on, until the fall-th in a row
  -- below it.
  unfoldable pub works : List Sample → Bool
  unfolding run_of
  works [] = false
  works (s ∷ h) =
      if is_above s
      then works h || leb (max rise_ticks 1) (run_of true (s ∷ h))
      else works h && not (leb (max fall_ticks 1) (run_of false (s ∷ h)))

  -- The three fields of the classifier say exactly this of the history: whether the process works,
  -- and the lengths of the unbroken runs above and below the bar.
  pub state_after-works :
      (h : List Sample)
      → state_after h
        ≡ record { working = works h; above_streak = run_of true h; below_streak = run_of false h }
  unfolding state_after works classify
  state_after-works [] = refl
  state_after-works (s ∷ h) = rw (state_after-works h) (ground arith)

  -- A process is working only after a run of `rise` ticks above the bar somewhere in its past:
  -- without one it never emits.
  pub works_needs_rise :
      (h : List Sample)
      → works h ≡ true
      → (newer : List Sample) × (older : List Sample) × (h ≡ newer ++ older)
        × (max rise_ticks 1 ≤ run_of true older)
  unfolding works
  works_needs_rise [] w = cc
  works_needs_rise (s ∷ h) w = elim (Bool-cases (works h)) [
    | inl e ↦ longer (works_needs_rise h e)
    | inr e ↦ ([], s ∷ h, refl, ground arith)
  ]
    where
      longer :
          (newer : List Sample) × (older : List Sample) × (h ≡ newer ++ older)
            × (max rise_ticks 1 ≤ run_of true older)
          → (newer : List Sample) × (older : List Sample) × (s ∷ h ≡ newer ++ older)
            × (max rise_ticks 1 ≤ run_of true older)
      longer (n, o, p, q) = (s ∷ n, o, cc, q)

  -- A working process stays so through a dip shorter than `fall` ticks.
  pub works_through_dip :
      (dip h : List Sample)
      → works h ≡ true
      → All (λ s. is_above s ≡ false) dip
      → run_of false (dip ++ h) < max fall_ticks 1
      → works (dip ++ h) ≡ true
  unfolding works
  works_through_dip [] h w d lt = w
  works_through_dip (s ∷ dip) h w d lt =
      let ih = works_through_dip dip h w d.1 in ground (arith, ih)
