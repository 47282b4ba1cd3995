-- ===== src/Store/Observing/Keys.antt =====
-- The UNIQUE key of the observations, and what an upsert keeps.
use antitimely.Prelude.{
  ℕ, ◌+◌, ◌≡◌, refl, subst, true, some, arith, Bool-cases, Option-cases, inl, inr,
}
use antitimely.Prelude.Text.{str_eq_iff, str_eq_refl}
use antitimely.Domain.Signal.{Source, Signal}
use antitimely.Store.Tables.{Observation, observed}
use antitimely.Store.Observing.{source_eq, max_id, same_key, find_key, upsert_observation, Db}

source_eq-same : (a b : Source) → source_eq a b ≡ true → a ≡ b
unfolding source_eq
source_eq-same Source.focus Source.focus h = refl
source_eq-same Source.agent Source.agent h = refl
source_eq-same Source.transcript Source.transcript h = refl
source_eq-same Source.focus Source.agent h = absurd (ground arith)
source_eq-same Source.focus Source.transcript h = absurd (ground arith)
source_eq-same Source.agent Source.focus h = absurd (ground arith)
source_eq-same Source.agent Source.transcript h = absurd (ground arith)
source_eq-same Source.transcript Source.focus h = absurd (ground arith)
source_eq-same Source.transcript Source.agent h = absurd (ground arith)

source_eq_refl : (a : Source) → source_eq a a ≡ true
unfolding source_eq
source_eq_refl Source.focus = refl
source_eq_refl Source.agent = refl
source_eq_refl Source.transcript = refl

-- Two signals with the key of one row are the same.
pub same_key-observed : (s : Signal) (o : Observation) → same_key s o ≡ true → s ≡ observed o
unfolding same_key
same_key-observed s o h =
    let e0 = source_eq-same s.source o.source (ground arith) in
    let e1 = (str_eq_iff s.bundle_id o.bundle_id).0 (ground arith) in
    let e2 = (str_eq_iff s.window_title o.window_title).0 (ground arith) in
    let e3 = (str_eq_iff s.binary_name o.binary_name).0 (ground arith) in
    let e4 = (str_eq_iff s.cwd o.cwd).0 (ground arith) in
    let e5 = (str_eq_iff s.space_id o.space_id).0 (ground arith) in
    λ i. record {
      source = e0 i;
      bundle_id = e1 i;
      window_title = e2 i;
      binary_name = e3 i;
      cwd = e4 i;
      space_id = e5 i;
    }

same_key_refl : (o : Observation) → same_key (observed o) o ≡ true
unfolding same_key
same_key_refl o =
    rw
      (
        source_eq_refl o.source,
        str_eq_refl o.bundle_id,
        str_eq_refl o.window_title,
        str_eq_refl o.binary_name,
        str_eq_refl o.cwd,
        str_eq_refl o.space_id,
      )
      refl

-- After an upsert the key finds the id that it returned, and every key that found one finds the same.
pub upsert_observation-find_key :
    (s : Signal) (now : ℕ) (db : Db)
    → (find_key s (upsert_observation s now db).1.observations
        ≡ some (upsert_observation s now db).0)
      × ((t : Signal) (i : ℕ)
          → find_key t db.observations ≡ some i
          → find_key t (upsert_observation s now db).1.observations ≡ some i)
unfolding upsert_observation find_key
upsert_observation-find_key s now db = elim (Option-cases (find_key s db.observations)) [
  | inr (i, e) ↦ rw (e, upsert_observation) (e, λ t i h. h)
  | inl e ↦
      let row : Observation = record {
        id = max_id db.observations + 1;
        source = s.source;
        bundle_id = s.bundle_id;
        window_title = s.window_title;
        binary_name = s.binary_name;
        cwd = s.cwd;
        space_id = s.space_id;
        first_seen = now;
      } in
      rw (e, upsert_observation)
        (
          rw (same_key_refl row) refl,
          λ t i h. elim (Bool-cases (same_key t row)) [
            | inl k ↦
                let found =
                  subst (λ x. find_key x db.observations ≡ some i) (same_key-observed t row k) h in
                absurd (cc (found, e))
            | inr k ↦ rw k h
          ],
        )
]
