-- ===== src/Store/Admin/After.antt =====
-- What holds of the database after a statement, when it was not refused.
use antitimely.Prelude.{◌≡◌, refl, subst, Bool, true, false, Option, none, some}
use antitimely.Store.Admin.{Database, allow}

module _ {A : Type 0} where
  pub record After (R : Database → Type 0) (o : Option (A × Database)) : Type 0 where
    pub at : (x : A × Database) → o ≡ some x → R x.1

module _ {A : Type 0} {R : Database → Type 0} where
  After-none : After {A = A} R none
  After-none = record { at = λ x e. absurd (cc e) }

  pub After-some : (x : A × Database) → R x.1 → After R (some x)
  After-some x h = record { at = λ y e. subst (λ z. R z.1) (injected x y e) h }
    where
      injected : (x y : A × Database) → some x ≡ some y → x ≡ y
      injected x y e = cc e

  pub After-allow : (b : Bool) (x : A × Database) → (b ≡ true → R x.1) → After R (allow b x)
  unfolding allow
  After-allow true x f = After-some x (f refl)
  After-allow false x f = After-none
