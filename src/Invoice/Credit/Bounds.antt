-- ===== src/Invoice/Credit/Bounds.antt =====
-- What the clamps of the credit give.
use antitimely.Prelude.{◌-◌, ◌≡◌, arith, ◌⊎◌}
use antitimely.Prelude.Int.{ℤ, pos, negsuc, ◌-ℤ◌, ◌+ℤ◌, ◌-₆₄◌, ◌≤ℤ◌, IsInt64, wrap64_id, pos_part}
use antitimely.Invoice.Credit.{apply_credit}

abbrev pub IsMoney : ℤ → Type 0
IsMoney a = (pos 0 ≤ℤ a) × IsInt64 a

room_lem :
    (total goodwill : ℤ)
    → IsMoney total
    → IsMoney goodwill
    → goodwill ≤ℤ total
    → (total -₆₄ goodwill) ≡ pos (pos_part total - pos_part goodwill)
unfolding ◌-ℤ◌
room_lem (pos t) (pos g) ht hg h =
    let e : (pos t -ℤ pos g) ≡ pos (t - g) = ground arith in
    rw e (wrap64_id (pos (t - g)) (ground arith))
room_lem (pos t) (negsuc g) ht hg h = absurd (ground arith)
room_lem (negsuc t) g ht hg h = absurd (ground arith)

-- For a line total and a goodwill that are not negative, the goodwill at most the total, and any
-- balance, even a negative one: the credit taken is not negative, stays in the room that the
-- goodwill leaves, is at most the balance or is nothing, and leaves none of the balance unused while
-- there is room.
pub apply_credit-bounds :
    (credit total goodwill : ℤ)
    → IsMoney total
    → IsMoney goodwill
    → goodwill ≤ℤ total
    → let applied = apply_credit credit total goodwill in
      (pos 0 ≤ℤ applied)
      × (goodwill +ℤ applied ≤ℤ total)
      × ((applied ≤ℤ credit) ⊎ (applied ≡ pos 0))
      × ((applied ≡ credit) ⊎ (goodwill +ℤ applied ≡ total) ⊎ (credit ≤ℤ pos 0))
unfolding apply_credit ◌+ℤ◌
apply_credit-bounds credit (negsuc t) goodwill ht hg h = absurd (ground arith)
apply_credit-bounds credit (pos t) (negsuc g) ht hg h = absurd (ground arith)
apply_credit-bounds (pos c) (pos t) (pos g) ht hg h =
    rw (room_lem (pos t) (pos g) ht hg h) (ground arith)
apply_credit-bounds (negsuc c) (pos t) (pos g) ht hg h =
    rw (room_lem (pos t) (pos g) ht hg h) (ground arith)
