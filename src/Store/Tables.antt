-- ===== src/Store/Tables.antt =====
-- internal/store/models.go: the rows of the tables. NULL is `none`.
use antitimely.Prelude.{ℕ, Option}
use antitimely.Prelude.Text.{Str}
use antitimely.Domain.Signal.{Source, Signal}

pub record Observation : Type 0 where
  pub id : ℕ
  pub source : Source
  pub bundle_id : Str
  pub window_title : Str
  pub binary_name : Str
  pub cwd : Str
  pub space_id : Str
  pub first_seen : ℕ

pub record Tick : Type 0 where
  pub ts : ℕ
  pub observation_id : ℕ
  pub project_id : Option ℕ

-- The signal that an observation keeps.
abbrev pub observed : Observation → Signal
observed o = record {
  source = o.source;
  bundle_id = o.bundle_id;
  window_title = o.window_title;
  binary_name = o.binary_name;
  cwd = o.cwd;
  space_id = o.space_id;
}
