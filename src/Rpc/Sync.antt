-- ===== src/Rpc/Sync.antt =====
-- The snapshot that the polling loop reads, described from the tables.
pub mod Patterns
pub mod Quiet
pub mod Handled
use antitimely.Prelude.{
  arith, inl, inr, ℕ, ◌≡◌, refl, sym, ap, ◌∙◌, Bool, true, false, not, ◌&&◌, ◌||◌, Option, none,
  some, List, [], ◌∷◌, map, ◌==◌, if◌then◌else◌, any, keep, Bool-cases,
}
use antitimely.Prelude.Text.{Str, str_eq}
use antitimely.Domain.Signal.{RuleSpec}
use antitimely.Domain.Cwd.{is_nil}
use antitimely.Domain.Rules.{sort_rules, insert_rule, less}
use antitimely.Daemon.Cache.{Cache, store_preserving_runtime}
use antitimely.Store.Admin.{
  Database, Project, bundle, binary, list_paused_project_ids, list_rules_for_cache,
}
use antitimely.Rpc.Exec.{
  Service, Handler, Reply, proceed, select, under, on_cache, ◌>>=◌, statement,
}
use antitimely.Rpc.Exec.Stable.{Holds, Sets, is_ok}
use antitimely.Rpc.{watches, binds, snapshot_of, reload_cache, cwd_patterns_of}
use antitimely.Rpc.Sync.Patterns.{asks_for, any-sort, cwd_patterns_of-any}

abbrev pub is_paused : ℕ → Project → Bool
is_paused p q = q.paused && (q.id == p)

pub record IsSynced (db : Database) (c : Cache) : Type 0 where
  pub bundles : (x : Str) → c.snap.allowed_bundles x ≡ any (watches bundle x) db.watched
  pub binaries : (x : Str) → c.snap.allowed_binaries x ≡ any (watches binary x) db.watched
  pub rules : c.snap.rules ≡ sort_rules db.rules
  pub paused : (p : ℕ) → c.snap.paused_project_ids p ≡ any (is_paused p) db.projects
  pub patterns : (x : Str) → any (str_eq x) c.snap.cwd_patterns ≡ any (asks_for x) db.rules
  pub spaces : (x : Str) → c.snap.bound_space_ids x ≡ any (binds x) db.rules

any-paused :
    (p : ℕ) (qs : List Project)
    → any (λ i. i == p) (map (λ q. q.id) (keep (λ q. q.paused) qs)) ≡ any (is_paused p) qs
any-paused p [] = refl
any-paused p (q ∷ qs) = elim (Bool-cases q.paused) [
  | inl t ↦ rw t (rw (any-paused p qs))
  | inr t ↦ rw t (any-paused p qs)
]

stored-IsSynced :
    (db : Database) (c : Cache)
    → IsSynced db (
        store_preserving_runtime
          (snapshot_of db.watched (list_rules_for_cache db) (list_paused_project_ids db))
          c)
unfolding store_preserving_runtime snapshot_of list_rules_for_cache list_paused_project_ids
stored-IsSynced db c = record {
  bundles = λ x. refl;
  binaries = λ x. refl;
  rules = refl;
  paused = λ p. any-paused p db.projects;
  patterns = λ x. cwd_patterns_of-any x (sort_rules db.rules) ∙ any-sort (asks_for x) db.rules;
  spaces = λ x. any-sort (binds x) db.rules;
}

-- `m` at this state, if it returns, ends in `P`.
abbrev Reaches : {B : Type 0} → (Database → Cache → Type 0) → Handler B → Service → Type 0
Reaches P m s = is_ok (m s).0 ≡ true → Holds P (m s).1

-- What is selected is read off the database, which stays as it is.
Reaches-select :
    {A B : Type 0} (P : Database → Cache → Type 0) (f : Database → A) (g : A → Handler B)
    (s : Service)
    → ((faults : List Bool) → Reaches P (g (f s.db)) (record s { faults = faults }))
    → Reaches P (select f >>= g) s
unfolding select statement ◌>>=◌
Reaches-select {A = A} P f g s next = go s.faults
  where
    outcome : List Bool → Reply A × Service
    outcome faults = under faults (λ db. some (f db, db)) s

    go :
        (faults : List Bool)
        → is_ok (proceed (outcome faults).0 g (outcome faults).1).0 ≡ true
        → Holds P (proceed (outcome faults).0 g (outcome faults).1).1
    go [] h = next s.faults h
    go (true ∷ faults) h = absurd (ground arith)
    go (false ∷ faults) h = next faults h

-- After a reload that returns, the snapshot is that of the tables.
pub reload_cache-IsSynced : Sets IsSynced reload_cache
unfolding reload_cache on_cache
reload_cache-IsSynced = record {
  at = λ s. Reaches-select IsSynced _ _ s λ f.
      Reaches-select IsSynced _ _ _
        λ g. Reaches-select IsSynced _ _ _ λ h e. stored-IsSynced s.db s.cache;
}
