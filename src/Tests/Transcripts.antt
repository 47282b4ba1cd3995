-- ===== src/Tests/Transcripts.antt =====
-- Runs of the transcript collector at concrete inputs.
use antitimely.Prelude.{
  ℕ, subst, Option, ◌≡◌, refl, inr, true, false, none, some, List, [], ◌∷◌, length, arith, All,
}
use antitimely.Prelude.Text.{Str, codes, trim_right, has_char, str_eq, has_prefix}
use antitimely.Domain.Cwd.{matches_cwd}
use antitimely.Daemon.Agent.{cwd_matches_any_pattern}
use antitimely.Daemon.Import.{Stamp, Line}
use antitimely.Daemon.Transcript.{
  read_session, new_session, SessionEntry, Sessions, SpaceHost, TranscriptConfig,
  parse_transcript_tail, collect_transcript_signals, transcript_signal_of,
}
use antitimely.Daemon.Transcript.Growing.{
  Look, text_of, AreTimely, read_looks, read_looks-parse_transcript_tail,
}
use antitimely.Domain.Cwd.{is_nil}
use antitimely.Daemon.Codex.{
  CodexLine, new_codex_session, whole_lines, parse_codex_tail, read_rollout,
}
use antitimely.Daemon.Codex.Lines.{NamesCommand}
use antitimely.Daemon.Codex.Pieces.{read_rollouts, read_rollouts-parse_codex_tail}
use antitimely.Daemon.Transcript.Gated.{IsLive, collect_transcript_signals-IsLive}

-- A line is dated by its first character.
abbrev decode : Str → Line
decode [] = none
decode (c ∷ s) = some (record { cwd = codes "/w/site"; timestamp = Stamp.at c })

abbrev looks : List Look
looks = (70 ∷ 10 ∷ [], 70, 75) ∷ (80 ∷ 10 ∷ 78 ∷ 10 ∷ [], 80, 85) ∷ []

looks-AreTimely : AreTimely decode 60 [] looks
unfolding parse_transcript_tail
looks-AreTimely = (
  omega arith,
  inr (70 ∷ [], refl),
  inr refl,
  (omega arith, inr (70 ∷ 10 ∷ 80 ∷ 10 ∷ 78 ∷ [], refl), inr refl, tt),
)

read_looks-parse_transcript_tail_example :
    let st = read_looks decode 60 [] looks new_session in
    let t = parse_transcript_tail decode (text_of [] looks) in
    (st.offset ≡ length (text_of [] looks)) × (st.last_activity ≡ t.newest) × (st.cwd ≡ t.cwd)
read_looks-parse_transcript_tail_example =
    read_looks-parse_transcript_tail decode 60 looks refl looks-AreTimely

read_run : (read_looks decode 60 [] looks new_session).last_activity ≡ 80
unfolding read_looks parse_transcript_tail read_session
read_run = refl

abbrev config : TranscriptConfig
config = record { grace = 60; patterns = codes "/w/site" ∷ []; bound_space_ids = λ s. false }

abbrev spaces : SpaceHost
spaces = record {
  space_for_session = λ s. none;
  space_for_pane = λ p. some (codes "w1");
  has_registry = true;
  pid_of = λ s. some 9;
  env_pane = λ i. some (codes "w1:p1");
}

abbrev at_work : SessionEntry
at_work = record {
  dir = codes "-w-site";
  session = codes "s1";
  view = record { stat = some (2, 70); read = some (70 ∷ 10 ∷ []) };
}

abbrev nothing_known : Sessions
nothing_known = record { states = []; session_pane = λ s. none }

collect_transcript_signals-IsLive_example :
    let x =
      collect_transcript_signals decode config spaces 75 (some (at_work ∷ [])) nothing_known in
    All (IsLive config 75 x.1.states (at_work ∷ [])) x.0
collect_transcript_signals-IsLive_example =
    collect_transcript_signals-IsLive decode config spaces 75 (some (at_work ∷ [])) nothing_known
      (tt, tt)

collect_run :
    (collect_transcript_signals decode config spaces 75 (some (at_work ∷ [])) nothing_known).0
    ≡ transcript_signal_of (codes "/w/site") (codes "s1") (codes "w1") ∷ []
unfolding collect_transcript_signals parse_transcript_tail cwd_matches_any_pattern matches_cwd
    trim_right has_char str_eq has_prefix
collect_run = refl

abbrev rollout_line : Str → Option CodexLine
rollout_line [] = none
rollout_line (c ∷ s) =
    some (record { date = c; session_cwd = codes "/w"; item_cwd = some (codes "/w/a") })

rollout_line-NamesCommand : (l : Str) → NamesCommand (rollout_line l)
rollout_line-NamesCommand [] = tt
rollout_line-NamesCommand (c ∷ s) = λ d e. subst (λ x. is_nil x ≡ false) (same d e) refl
  where
    same : (d : Str) → some (codes "/w/a") ≡ some d → codes "/w/a" ≡ d
    same d e = cc e

-- The second piece ends within a line.
abbrev pieces : List (Str × ℕ × ℕ)
pieces = (70 ∷ 10 ∷ [], 70, 75) ∷ (80 ∷ [], 80, 85) ∷ (81 ∷ 10 ∷ 90 ∷ [], 90, 91) ∷ []

read_rollouts-parse_codex_tail_example :
    let st = read_rollouts rollout_line 60 [] pieces new_codex_session in
    let lines = whole_lines (text_of [] pieces) in
    let t = parse_codex_tail rollout_line lines [] in
    (st.offset ≡ length lines)
    × (st.last_activity ≡ t.newest)
    × (st.cwd ≡ t.session_cwd)
    × (st.command_cwd ≡ t.command_cwd)
read_rollouts-parse_codex_tail_example =
    read_rollouts-parse_codex_tail rollout_line rollout_line-NamesCommand refl 60 pieces
      (omega arith, (omega arith, (omega arith, tt)))

rollouts_run : (read_rollouts rollout_line 60 [] pieces new_codex_session).offset ≡ 5
unfolding read_rollouts read_rollout
rollouts_run = refl
