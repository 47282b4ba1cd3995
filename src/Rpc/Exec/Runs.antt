-- ===== src/Rpc/Exec/Runs.antt =====
-- The outcomes of a handler, one rule for each way to build it.
use antitimely.Prelude.{◌≡◌, refl, Bool, true, false, Option, none, some, List, [], ◌∷◌}
use antitimely.Store.Admin.{Database, Statement}
use antitimely.Rpc.Exec.{
  RpcError, Reply, err, ok, Service, Handler, found, statement, select, settled, under, proceed,
  ◌>>=◌,
}

module _ {A B : Type 0} where
  -- A selection fails, or gives what the database has.
  pub select-runs :
      (Q : Reply B × Service → Type 0) (f : Database → A) (g : A → Handler B) (s : Service)
      → ((faults : List Bool) → Q (err RpcError.broken, record s { faults = faults }))
      → ((faults : List Bool) → Q (g (f s.db) (record s { faults = faults })))
      → Q ((select f >>= g) s)
  unfolding select statement ◌>>=◌
  select-runs Q f g s bad good = go s.faults
    where
      outcome : List Bool → Reply A × Service
      outcome faults = under faults (λ db. some (f db, db)) s

      go : (faults : List Bool) → Q (proceed (outcome faults).0 g (outcome faults).1)
      go [] = good s.faults
      go (true ∷ faults) = bad faults
      go (false ∷ faults) = good faults

  pub found-runs :
      (Q : Reply B × Service → Type 0) (o : Option A) (g : A → Handler B) (s : Service)
      → Q (err RpcError.no_rows, s)
      → ((a : A) → o ≡ some a → Q (g a s))
      → Q ((found o >>= g) s)
  unfolding found ◌>>=◌
  found-runs Q none g s bad good = bad
  found-runs Q (some a) g s bad good = good a refl

module _ {A : Type 0} where
  -- A statement fails or is refused, and changes nothing, or it goes through.
  pub statement-runs :
      (Q : Reply A × Service → Type 0) (q : Statement A) (s : Service)
      → ((e : RpcError) (faults : List Bool) → Q (err e, record s { faults = faults }))
      → ((x : A × Database) (faults : List Bool)
          → q s.db ≡ some x
          → Q (ok x.0, record s { db = x.1; faults = faults }))
      → Q (statement q s)
  unfolding statement
  statement-runs Q q s bad good = go s.faults
    where
      arrive :
          (o : Option (A × Database)) (faults : List Bool)
          → q s.db ≡ o
          → Q (settled o (record s { faults = faults }))
      arrive none faults e = bad RpcError.constraint faults
      arrive (some x) faults e = good x faults e

      go : (faults : List Bool) → Q (under faults q s)
      go [] = arrive (q s.db) s.faults refl
      go (true ∷ faults) = bad RpcError.broken faults
      go (false ∷ faults) = arrive (q s.db) faults refl
