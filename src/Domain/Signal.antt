-- ===== src/Domain/Signal.antt =====
-- internal/domain/types.go: what one observation is, and what a rule asks of it.
use antitimely.Prelude.{ℕ, Bool, true, false, Option}
use antitimely.Prelude.Int.{ℤ}
use antitimely.Prelude.Text.{Str}

pub data Source : Type 0 where
  focus agent transcript : Source

-- An empty string means "not applicable".
pub record Signal : Type 0 where
  pub source : Source
  pub bundle_id : Str
  pub window_title : Str
  pub binary_name : Str
  pub cwd : Str
  pub space_id : Str

abbrev is_source_agent : Source → Bool
is_source_agent Source.agent = true
is_source_agent _ = false

abbrev is_source_focus : Source → Bool
is_source_focus Source.focus = true
is_source_focus _ = false

abbrev is_source_transcript : Source → Bool
is_source_transcript Source.transcript = true
is_source_transcript _ = false

abbrev pub is_agent : Signal → Bool
is_agent s = is_source_agent s.source

abbrev pub is_focus : Signal → Bool
is_focus s = is_source_focus s.source

abbrev pub is_transcript : Signal → Bool
is_transcript s = is_source_transcript s.source

-- `none` in a match field is "don't care".
pub record RuleSpec : Type 0 where
  pub id : ℕ
  pub project_id : ℕ
  pub priority : ℤ
  pub match_bundle_id : Option Str
  pub match_title_substr : Option Str
  pub match_binary_name : Option Str
  pub match_cwd_prefix : Option Str
  pub match_space_id : Option Str
