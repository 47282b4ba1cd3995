-- ===== src/Prelude/Maps.antt =====
-- Go maps as functions: a missing key reads as the zero value, which the function returns there.
use Prim.Native.Nat.{ℕ}
use antitimely.Prelude.Tests.{◌==◌, if◌then◌else◌}

module _ {ℓ} {V : Type ℓ} where
  abbrev pub update : ℕ → V → (ℕ → V) → ℕ → V
  update k v m j = if j == k then v else m j
