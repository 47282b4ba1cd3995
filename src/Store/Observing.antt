-- ===== src/Store/Observing.antt =====
-- internal/store/queries.sql.go: the queries of the polling loop, over the tables that it writes.
pub mod Keys
use antitimely.Prelude.{
  ℕ, ◌+◌, Bool, true, false, ◌&&◌, ◌||◌, Option, none, some, List, [], ◌∷◌, ◌==◌, max,
  if◌then◌else◌,
}
use antitimely.Prelude.Text.{str_eq}
use antitimely.Prelude.Maps.{update}
use antitimely.Domain.Signal.{Source, Signal}
use antitimely.Store.Tables.{Observation, Tick}

pub record Db : Type 0 where
  pub observations : List Observation
  pub ignored : ℕ → Bool
  pub ticks : List Tick
  pub paused : ℕ → Bool

source_eq : Source → Source → Bool
source_eq Source.focus Source.focus = true
source_eq Source.agent Source.agent = true
source_eq Source.transcript Source.transcript = true
source_eq _ _ = false

-- The columns of the UNIQUE key.
unfoldable pub same_key : Signal → Observation → Bool
unfolding source_eq str_eq
same_key s o =
    source_eq s.source o.source
    && str_eq s.bundle_id o.bundle_id
    && str_eq s.window_title o.window_title
    && str_eq s.binary_name o.binary_name
    && str_eq s.cwd o.cwd
    && str_eq s.space_id o.space_id

unfoldable pub find_key : Signal → List Observation → Option ℕ
unfolding same_key
find_key s [] = none
find_key s (o ∷ os) = if same_key s o then some o.id else find_key s os

-- SQLite's row id for a new row: one more than the greatest in use.
unfoldable pub max_id : List Observation → ℕ
max_id [] = 0
max_id (o ∷ os) = max o.id (max_id os)

-- INSERT ... ON CONFLICT DO UPDATE ... RETURNING id
unfoldable pub upsert_observation : Signal → ℕ → Db → ℕ × Db
unfolding find_key max_id
upsert_observation s now db = elim (find_key s db.observations) [
  | some i ↦ (i, db)
  | none ↦
      let i = max_id db.observations + 1 in
      (
        i,
        record db {
          observations =
              record {
                id = i;
                source = s.source;
                bundle_id = s.bundle_id;
                window_title = s.window_title;
                binary_name = s.binary_name;
                cwd = s.cwd;
                space_id = s.space_id;
                first_seen = now;
              }
              ∷ db.observations;
        },
      )
]

unfoldable pub has_tick : ℕ → ℕ → List Tick → Bool
has_tick now i [] = false
has_tick now i (t ∷ ts) = ((t.ts == now) && (t.observation_id == i)) || has_tick now i ts

-- INSERT OR IGNORE: the key is (ts, observation_id).
unfoldable pub insert_tick : Tick → Db → Db
unfolding has_tick
insert_tick t db =
    if has_tick t.ts t.observation_id db.ticks then db else record db { ticks = t ∷ db.ticks }

unfoldable pub resume_project_by_id : ℕ → Db → Db
resume_project_by_id p db = record db { paused = update p false db.paused }
