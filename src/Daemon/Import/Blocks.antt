-- ===== src/Daemon/Import/Blocks.antt =====
-- What a block of stamps is.
use antitimely.Prelude.{
  ℕ, ◌+◌, ◌≤◌, ◌<◌, ◌≡◌, refl, inl, inr, List, [], ◌∷◌, ◌++◌, map, ltb, arith, Bool-cases, ap,
}
use antitimely.Daemon.Import.{split_from, split_blocks}

-- Stamps that follow `prev` without a pause longer than the grace, and the last of them.
abbrev pub IsRun : ℕ → ℕ → List ℕ → Type 0
IsRun grace prev [] = Unit
IsRun grace prev (s ∷ stamps) = (s ≤ prev + grace) × IsRun grace s stamps

abbrev pub last_of : ℕ → List ℕ → ℕ
last_of s [] = s
last_of s (t ∷ stamps) = last_of t stamps

-- A group of stamps, by its first and the rest.
abbrev pub Group : Type 0
Group = ℕ × List ℕ

abbrev pub stamps_in : List Group → List ℕ
stamps_in [] = []
stamps_in ((s, rest) ∷ groups) = (s ∷ rest) ++ stamps_in groups

abbrev pub block_of : Group → ℕ × ℕ
block_of (s, rest) = (s, last_of s rest)

-- No group has a pause longer than the grace inside, and there is one after each.
abbrev pub ArePaused : ℕ → List Group → Type 0
ArePaused grace [] = Unit
ArePaused grace ((s, rest) ∷ []) = IsRun grace s rest
ArePaused grace ((s, rest) ∷ (t, more) ∷ groups) =
    IsRun grace s rest × (last_of s rest + grace < t) × ArePaused grace ((t, more) ∷ groups)

abbrev Split : ℕ → List ℕ → List (ℕ × ℕ) → Type 0
Split grace stamps blocks =
    (groups : List Group) × (stamps_in groups ≡ stamps)
    × (map block_of groups ≡ blocks)
    × ArePaused grace groups

-- The block that is open: it starts at `start`, and the rest of its stamps comes from `prev` on.
abbrev OpenSplit : ℕ → ℕ → ℕ → List ℕ → List (ℕ × ℕ) → Type 0
OpenSplit grace start prev stamps blocks =
    (more : List ℕ) × (groups : List Group) × (more ++ stamps_in groups ≡ stamps)
    × ((start, last_of prev more) ∷ map block_of groups ≡ blocks)
    × ArePaused grace ((prev, more) ∷ groups)

ArePaused-longer :
    (grace prev s : ℕ) (more : List ℕ) (groups : List Group)
    → s ≤ prev + grace
    → ArePaused grace ((s, more) ∷ groups)
    → ArePaused grace ((prev, s ∷ more) ∷ groups)
ArePaused-longer grace prev s more [] h paused = (h, paused)
ArePaused-longer grace prev s more (g ∷ groups) h (run, far, rest) = ((h, run), far, rest)

split_from-OpenSplit :
    (grace start prev : ℕ) (stamps : List ℕ)
    → OpenSplit grace start prev stamps (split_from grace start prev stamps)
unfolding split_from
split_from-OpenSplit grace start prev [] = ([], [], refl, refl, tt)
split_from-OpenSplit grace start prev (s ∷ stamps) =
    let (more, groups, e, b, paused) = split_from-OpenSplit grace s s stamps in
    let (more', groups', e', b', paused') = split_from-OpenSplit grace start s stamps in
    elim (Bool-cases (ltb (prev + grace) s)) [
      | inl far ↦ rw far (
        [],
        (s, more) ∷ groups,
        ap (λ xs. s ∷ xs) e,
        ap (λ bs. (start, prev) ∷ bs) b,
        (tt, ground arith, paused),
      )
      | inr near ↦ rw near (
        s ∷ more',
        groups',
        ap (λ xs. s ∷ xs) e',
        b',
        ArePaused-longer grace prev s more' groups' (ground arith) paused',
      )
    ]

-- The blocks of any stamps are the first and last stamps of groups which follow one another in the
-- list: inside a group no two neighbours are more than the grace apart, and between two groups there
-- is a pause longer than it. No stamp is lost, and none is in two blocks.
pub split_blocks-groups :
    (grace : ℕ) (stamps : List ℕ)
    → (groups : List Group) × (stamps_in groups ≡ stamps)
      × (map block_of groups ≡ split_blocks stamps grace)
      × ArePaused grace groups
unfolding split_blocks
split_blocks-groups grace [] = ([], refl, refl, tt)
split_blocks-groups grace (s ∷ stamps) =
    let (more, groups, e, b, paused) = split_from-OpenSplit grace s s stamps in
    ((s, more) ∷ groups, ap (λ xs. s ∷ xs) e, b, paused)
