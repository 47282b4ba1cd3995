-- ===== src/Rpc/Exec.antt =====
-- internal/daemon/rpc.go: what the handlers are made of. A handler goes from statement to statement, and
-- returns at the first error; what it did before stays done. Which of the coming statements fail,
-- as the disk fills up or the deadline passes, is listed in the state.
pub mod Stable
pub mod Runs
use antitimely.Prelude.{Bool, true, false, Option, none, some, List, [], ◌∷◌, if◌then◌else◌}
use antitimely.Daemon.Cache.{Cache}
use antitimely.Domain.Cwd.{PatternError}
use antitimely.Store.Admin.{Database, Statement}

pub data RpcError : Type 0 where
  no_rows constraint broken bad_kind has_invoices has_credit : RpcError
  bad_pattern : PatternError → RpcError

pub data Reply (A : Type 0) : Type 0 where
  err : RpcError → Reply A
  ok : A → Reply A

-- `AntitimelyService`: the database and the cache.
pub record Service : Type 0 where
  pub db : Database
  pub cache : Cache
  pub faults : List Bool

abbrev pub Handler : Type 0 → Type 0
Handler A = Service → Reply A × Service

module _ {A : Type 0} where
  unfoldable pub pure : A → Handler A
  pure a s = (ok a, s)

  unfoldable pub raise : RpcError → Handler A
  raise e s = (err e, s)

  unfoldable pub found : Option A → Handler A
  found none s = (err RpcError.no_rows, s)
  found (some a) s = (ok a, s)

  abbrev pub settled : Option (A × Database) → Service → Reply A × Service
  settled none s = (err RpcError.constraint, s)
  settled (some x) s = (ok x.0, record s { db = x.1 })

  abbrev pub under : List Bool → Statement A → Handler A
  under [] q s = settled (q s.db) s
  under (true ∷ faults) q s = (err RpcError.broken, record s { faults = faults })
  under (false ∷ faults) q s = settled (q s.db) (record s { faults = faults })

  unfoldable pub statement : Statement A → Handler A
  statement q s = under s.faults q s

  -- A statement that only reads.
  unfoldable pub select : (Database → A) → Handler A
  unfolding statement
  select f = statement (λ db. some (f db, db))

unfoldable pub on_cache : (Cache → Cache) → Handler Unit
on_cache f s = (ok tt, record s { cache = f s.cache })

module _ {A B : Type 0} where
  abbrev pub proceed : Reply A → (A → Handler B) → Handler B
  proceed (err e) f s = (err e, s)
  proceed (ok a) f s = f a s

  infixl 10 ◌>>=◌ ◌>>◌
  unfoldable pub ◌>>=◌ : Handler A → (A → Handler B) → Handler B
  ◌>>=◌ m f s = let (r, s') = m s in proceed r f s'

  abbrev pub ◌>>◌ : Handler A → Handler B → Handler B
  m >> n = m >>= λ _. n

-- BEGIN and COMMIT change no row, and may fail.
abbrev pub nothing : Handler Unit
nothing = statement (λ db. some (tt, db))

module _ {A : Type 0} where
  -- `if err != nil`, with the result at hand
  unfoldable pub attempt : Handler A → Handler (Reply A)
  attempt m s = let (r, s') = m s in (ok r, s')

  abbrev pub committed : Database → A → Reply Unit × Service → Reply A × Service
  committed db a (err e, s) = (err e, record s { db = db })
  committed db a (ok _, s) = (ok a, s)

  abbrev pub ended : Database → Reply A × Service → Reply A × Service
  ended db (err e, s) = (err e, record s { db = db })
  ended db (ok a, s) = committed db a (nothing s)

  abbrev pub begun : Handler A → Reply Unit × Service → Reply A × Service
  begun m (err e, s) = (err e, s)
  begun m (ok _, s) = ended s.db (m s)

  -- On an error the database is rolled back to what it was.
  unfoldable pub transaction : Handler A → Handler A
  unfolding statement
  transaction m s = begun m (nothing s)
