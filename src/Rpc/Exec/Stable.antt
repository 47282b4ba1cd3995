-- ===== src/Rpc/Exec/Stable.antt =====
-- Invariants of handlers, one rule for each way to build a handler.
use antitimely.Prelude.{
  arith, ◌≡◌, refl, Bool, true, false, Option, none, some, if◌then◌else◌, List, [], ◌∷◌,
}
use antitimely.Daemon.Cache.{Cache}
use antitimely.Store.Admin.{Database, Statement}
use antitimely.Rpc.Exec.{
  RpcError, Reply, err, ok, Service, Handler, pure, raise, found, statement, select, on_cache,
  settled, under, proceed, ◌>>=◌, nothing, attempt, committed, ended, begun, transaction,
}

abbrev pub Holds : (Database → Cache → Type 0) → Service → Type 0
Holds P s = P s.db s.cache

module _ {A : Type 0} where
  abbrev pub is_ok : Reply A → Bool
  is_ok (err e) = false
  is_ok (ok a) = true

  -- `P` survives a call of `m`, errors included.
  pub record Stable (P : Database → Cache → Type 0) (m : Handler A) : Type 0 where
    pub at : (s : Service) → Holds P s → Holds P (m s).1

  -- `P` holds after `m` if `m` returns, whatever held before.
  pub record Sets (P : Database → Cache → Type 0) (m : Handler A) : Type 0 where
    pub at : (s : Service) → is_ok (m s).0 ≡ true → Holds P (m s).1

  -- `m` keeps `P` if it returns.
  pub record StableOk (P : Database → Cache → Type 0) (m : Handler A) : Type 0 where
    pub at : (s : Service) → Holds P s → is_ok (m s).0 ≡ true → Holds P (m s).1

module _ {A : Type 0} (P : Database → Cache → Type 0) where
  Stable-settled :
      (o : Option (A × Database)) (s : Service)
      → ((x : A × Database) → o ≡ some x → P x.1 s.cache)
      → Holds P s
      → Holds P (settled o s).1
  Stable-settled none s f h = h
  Stable-settled (some x) s f h = f x refl

module _ {A : Type 0} {P : Database → Cache → Type 0} where
  pub Stable-StableOk : (m : Handler A) → Stable P m → StableOk P m
  Stable-StableOk m k = record { at = λ s h e. k.at s h }

  pub Sets-StableOk : (m : Handler A) → Sets P m → StableOk P m
  Sets-StableOk m k = record { at = λ s h e. k.at s e }

  pub Stable-pure : (a : A) → Stable P (pure a)
  unfolding pure
  Stable-pure a = record { at = λ s h. h }

  pub Stable-raise : (e : RpcError) → Stable P (raise {A = A} e)
  unfolding raise
  Stable-raise e = record { at = λ s h. h }

  pub Stable-found : (o : Option A) → Stable P (found o)
  unfolding found
  Stable-found none = record { at = λ s h. h }
  Stable-found (some a) = record { at = λ s h. h }

  pub Stable-statement :
      (q : Statement A)
      → ((db : Database) (c : Cache) (x : A × Database) → q db ≡ some x → P db c → P x.1 c)
      → Stable P (statement q)
  unfolding statement
  Stable-statement q f = record { at = λ s h. go s.faults s h }
    where
      go : (faults : List Bool) (s : Service) → Holds P s → Holds P (under faults q s).1
      go [] s h = Stable-settled P (q s.db) s (λ x e. f s.db s.cache x e h) h
      go (true ∷ faults) s h = h
      go (false ∷ faults) s h =
          Stable-settled P (q s.db) (record s { faults = faults }) (λ x e. f s.db s.cache x e h) h

  pub Stable-select : (f : Database → A) → Stable P (select f)
  unfolding select statement
  Stable-select f = record { at = λ s h. go s.faults s h }
    where
      go :
          (faults : List Bool) (s : Service)
          → Holds P s
          → Holds P (under faults (λ db. some (f db, db)) s).1
      go [] s h = h
      go (true ∷ faults) s h = h
      go (false ∷ faults) s h = h

  pub Stable-if :
      (b : Bool) (m n : Handler A) → Stable P m → Stable P n → Stable P (if b then m else n)
  Stable-if true m n km kn = km
  Stable-if false m n km kn = kn

  pub Sets-if : (b : Bool) (m n : Handler A) → Sets P m → Sets P n → Sets P (if b then m else n)
  Sets-if true m n km kn = km
  Sets-if false m n km kn = kn

  pub Sets-raise : (e : RpcError) → Sets P (raise {A = A} e)
  unfolding raise
  Sets-raise e = record { at = λ s h. absurd (ground arith) }

  pub Stable-attempt : (m : Handler A) → Stable P m → Stable P (attempt m)
  unfolding attempt
  Stable-attempt m k = record { at = λ s h. k.at s h }

module _ {P : Database → Cache → Type 0} where
  pub Stable-on_cache :
      (f : Cache → Cache)
      → ((db : Database) (c : Cache) → P db c → P db (f c))
      → Stable P (on_cache f)
  unfolding on_cache
  Stable-on_cache f k = record { at = λ s h. k s.db s.cache h }

module _ {A B : Type 0} where
  Stable-proceed :
      (P : Database → Cache → Type 0) (r : Reply A) (f : A → Handler B) (s : Service)
      → ((a : A) → Stable P (f a))
      → Holds P s
      → Holds P (proceed r f s).1
  Stable-proceed P (err e) f s kf h = h
  Stable-proceed P (ok a) f s kf h = (kf a).at s h

  StableOk-proceed :
      (P : Database → Cache → Type 0) (r : Reply A) (f : A → Handler B) (s : Service)
      → ((a : A) → StableOk P (f a))
      → Holds P s
      → is_ok (proceed r f s).0 ≡ true
      → Holds P (proceed r f s).1
  StableOk-proceed P (err e) f s kf h k = h
  StableOk-proceed P (ok a) f s kf h k = (kf a).at s h k

  Sets-proceed :
      (P : Database → Cache → Type 0) (r : Reply A) (f : A → Handler B) (s : Service)
      → ((a : A) → Sets P (f a))
      → is_ok (proceed r f s).0 ≡ true
      → Holds P (proceed r f s).1
  Sets-proceed P (err e) f s kf k = absurd (ground arith)
  Sets-proceed P (ok a) f s kf k = (kf a).at s k

  Sets-Stable-proceed :
      (P : Database → Cache → Type 0) (r : Reply A) (f : A → Handler B) (s : Service)
      → ((a : A) → Stable P (f a))
      → (is_ok r ≡ true → Holds P s)
      → is_ok (proceed r f s).0 ≡ true
      → Holds P (proceed r f s).1
  Sets-Stable-proceed P (err e) f s kf h k = absurd (ground arith)
  Sets-Stable-proceed P (ok a) f s kf h k = (kf a).at s (h refl)

module _ {A B : Type 0} {P : Database → Cache → Type 0} where
  -- The rest keeps what holds after `m` at this state.
  pub rest_keeps :
      (m : Handler A) (f : A → Handler B) (s : Service)
      → Holds P (m s).1
      → ((a : A) → Stable P (f a))
      → Holds P ((m >>= f) s).1
  unfolding ◌>>=◌
  rest_keeps m f s h kf = let (r, s') = m s in Stable-proceed P r f s' kf h

  pub Stable-bind :
      (m : Handler A) (f : A → Handler B)
      → Stable P m
      → ((a : A) → Stable P (f a))
      → Stable P (m >>= f)
  unfolding ◌>>=◌
  Stable-bind m f km kf = record {
    at = λ s h. let (r, s') = m s in Stable-proceed P r f s' kf (km.at s h);
  }

  pub StableOk-bind :
      (m : Handler A) (f : A → Handler B)
      → Stable P m
      → ((a : A) → StableOk P (f a))
      → StableOk P (m >>= f)
  unfolding ◌>>=◌
  StableOk-bind m f km kf = record {
    at = λ s h e. let (r, s') = m s in StableOk-proceed P r f s' kf (km.at s h) e;
  }

  pub Sets-bind : (m : Handler A) (f : A → Handler B) → ((a : A) → Sets P (f a)) → Sets P (m >>= f)
  unfolding ◌>>=◌
  Sets-bind m f kf = record { at = λ s e. let (r, s') = m s in Sets-proceed P r f s' kf e }

  -- The rest keeps what holds after `m` when `m` returns from this state.
  pub rest_keeps_ok :
      (m : Handler A) (f : A → Handler B) (s : Service)
      → (is_ok (m s).0 ≡ true → Holds P (m s).1)
      → ((a : A) → Stable P (f a))
      → is_ok ((m >>= f) s).0 ≡ true
      → Holds P ((m >>= f) s).1
  unfolding ◌>>=◌
  rest_keeps_ok m f s h kf e = let (r, s') = m s in Sets-Stable-proceed P r f s' kf h e

  -- What `m` sets, the rest keeps.
  pub Sets-bind_keeps :
      (m : Handler A) (f : A → Handler B) → Sets P m → ((a : A) → Stable P (f a)) → Sets P (m >>= f)
  unfolding ◌>>=◌
  Sets-bind_keeps m f km kf = record {
    at = λ s e. let (r, s') = m s in Sets-Stable-proceed P r f s' kf (km.at s) e;
  }

  pub StableOk-bind_keeps :
      (m : Handler A) (f : A → Handler B)
      → StableOk P m
      → ((a : A) → Stable P (f a))
      → StableOk P (m >>= f)
  unfolding ◌>>=◌
  StableOk-bind_keeps m f km kf = record {
    at = λ s h e. let (r, s') = m s in Sets-Stable-proceed P r f s' kf (km.at s h) e;
  }

abbrev pub OnDb : (Database → Type 0) → Database → Cache → Type 0
OnDb Q db c = Q db

module _ {A : Type 0} {Q : Database → Type 0} where
  -- A transaction that is rolled back leaves the database as it was.
  pub Stable-transaction : (m : Handler A) → Stable (OnDb Q) m → Stable (OnDb Q) (transaction m)
  unfolding transaction select
  Stable-transaction m k = record { at = λ s h. begin (nothing s) (idle.at s h) }
    where
      idle : Stable (OnDb Q) nothing
      idle = Stable-select (λ db. tt)

      commit :
          (db : Database) (a : A) (c : Reply Unit × Service)
          → Q db
          → Q c.1.db
          → Q (committed db a c).1.db
      commit db a (err e, s) p q = p
      commit db a (ok _, s) p q = q

      end : (db : Database) (c : Reply A × Service) → Q db → Q c.1.db → Q (ended db c).1.db
      end db (err e, s) p q = p
      end db (ok a, s) p q = commit db a (nothing s) p (idle.at s q)

      begin : (c : Reply Unit × Service) → Q c.1.db → Q (begun m c).1.db
      begin (err e, s) p = p
      begin (ok _, s) p = end s.db (m s) p (k.at s p)

module _ {A : Type 0} where
  -- A transaction ends with the database that it found, or with that of a body that went through.
  pub transaction-runs :
      (R : Database → Type 0) (m : Handler A) (s : Service)
      → R s.db
      → ((faults : List Bool)
          → let t = record s { faults = faults } in is_ok (m t).0 ≡ true → R (m t).1.db)
      → R (transaction m s).1.db
  unfolding transaction statement
  transaction-runs R m s h k = begin s.faults
    where
      idle :
          (faults : List Bool) (t : Service)
          → R t.db
          → R (under faults (λ db. some (tt, db)) t).1.db
      idle [] t q = q
      idle (true ∷ faults) t q = q
      idle (false ∷ faults) t q = q

      commit : (a : A) (c : Reply Unit × Service) → R c.1.db → R (committed s.db a c).1.db
      commit a (err e, t) q = h
      commit a (ok _, t) q = q

      end : (c : Reply A × Service) → (is_ok c.0 ≡ true → R c.1.db) → R (ended s.db c).1.db
      end (err e, t) q = h
      end (ok a, t) q = commit a (nothing t) (idle t.faults t (q refl))

      begin : (faults : List Bool) → R (begun m (under faults (λ db. some (tt, db)) s)).1.db
      begin [] = end (m s) (k s.faults)
      begin (true ∷ faults) = h
      begin (false ∷ faults) = end (m (record s { faults = faults })) (k faults)

  -- When the transaction returns, the database is that of the body.
  pub transaction-ok :
      (R : Database → Type 0) (m : Handler A) (s : Service)
      → ((faults : List Bool)
          → let t = record s { faults = faults } in is_ok (m t).0 ≡ true → R (m t).1.db)
      → is_ok (transaction m s).0 ≡ true
      → R (transaction m s).1.db
  unfolding transaction statement
  transaction-ok R m s k = begin s.faults
    where
      idle :
          (faults : List Bool) (t : Service)
          → R t.db
          → R (under faults (λ db. some (tt, db)) t).1.db
      idle [] t q = q
      idle (true ∷ faults) t q = q
      idle (false ∷ faults) t q = q

      commit :
          (a : A) (c : Reply Unit × Service)
          → R c.1.db
          → is_ok (committed s.db a c).0 ≡ true
          → R (committed s.db a c).1.db
      commit a (err e, t) q h = absurd (ground arith)
      commit a (ok _, t) q h = q

      end :
          (c : Reply A × Service)
          → (is_ok c.0 ≡ true → R c.1.db)
          → is_ok (ended s.db c).0 ≡ true
          → R (ended s.db c).1.db
      end (err e, t) q h = absurd (ground arith)
      end (ok a, t) q h = commit a (nothing t) (idle t.faults t (q refl)) h

      begin :
          (faults : List Bool)
          → is_ok (begun m (under faults (λ db. some (tt, db)) s)).0 ≡ true
          → R (begun m (under faults (λ db. some (tt, db)) s)).1.db
      begin [] h = end (m s) (k s.faults) h
      begin (true ∷ faults) h = absurd (ground arith)
      begin (false ∷ faults) h = end (m (record s { faults = faults })) (k faults) h

pub ruleset stable_rules =
    (Stable-pure, Stable-raise, Stable-found, Stable-select, Stable-if, Stable-bind, Stable-attempt)
