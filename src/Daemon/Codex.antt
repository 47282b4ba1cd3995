-- ===== src/Daemon/Codex.antt =====
-- internal/daemon/codex.go: the sessions of Codex, read from the end of their rollout files. Only lines
-- that have come to their end are read. What a line decodes to is a parameter.
pub mod Lines
pub mod Pieces
use antitimely.Prelude.{
  ℕ, ◌+◌, ◌≡◌, Bool, true, false, not, ◌&&◌, ◌||◌, Option, none, some, List, [], ◌∷◌, ◌==◌, ltb,
  leb, if◌then◌else◌, length, ◌-◌, keep, any,
}
use antitimely.Prelude.Text.{Str, str_eq, codes}
use antitimely.Domain.Cwd.{is_nil}
use antitimely.Daemon.Transcript.{later, split_lines, drop, FileView, and_signal}
use antitimely.Domain.Signal.{Source, Signal}
use antitimely.Daemon.Agent.{cwd_matches_any_pattern}

-- A line with a date: the root that a session_meta or a turn_context names, empty for none, and the
-- directory of a command, as `decodeFileURL` gives it.
pub record CodexLine : Type 0 where
  pub date : ℕ
  pub session_cwd : Str
  pub item_cwd : Option Str

-- `codexTail`, with whether some line had a date.
pub record CodexTail : Type 0 where
  pub session_cwd : Str
  pub command_cwd : Str
  pub newest : ℕ
  pub dated : Bool

abbrev pub no_codex_tail : CodexTail
no_codex_tail = record { session_cwd = []; command_cwd = []; newest = 0; dated = false }

abbrev pub date_line : ℕ → CodexTail → CodexTail
date_line u t = record t { newest = later t.newest u; dated = true }

abbrev pub name_root : Str → Str × CodexTail → Str × CodexTail
name_root cwd (root, t) = if is_nil cwd then (root, t) else (cwd, record t { session_cwd = cwd })

-- A command at the root says nothing.
abbrev pub name_command : Option Str → Str × CodexTail → Str × CodexTail
name_command none x = x
name_command (some c) (root, t) =
    if str_eq c root then (root, t) else (root, record t { command_cwd = c })

-- The body of the loop; a line that is skipped is `none`.
unfoldable pub scan_rollout_line : Option CodexLine → Str × CodexTail → Str × CodexTail
scan_rollout_line none x = x
scan_rollout_line (some l) (root, t) =
    name_command l.item_cwd (name_root l.session_cwd (root, date_line l.date t))

-- `data[:nl+1]`, up to the last newline; empty when there is none.
unfoldable pub whole_lines : Str → Str
whole_lines [] = []
whole_lines (c ∷ s) =
    let rest = whole_lines s in if is_nil rest then (if c == 10 then 10 ∷ [] else []) else c ∷ rest

-- `transcriptSession`, as this collector uses it.
pub record CodexSession : Type 0 where
  pub offset : ℕ
  pub last_activity : ℕ
  pub cwd : Str
  pub command_cwd : Str

abbrev pub new_codex_session : CodexSession
new_codex_session = record { offset = 0; last_activity = 0; cwd = []; command_cwd = [] }

unfoldable pub take_codex_tail : CodexTail → CodexSession → CodexSession
take_codex_tail t st =
    if t.dated
    then record st {
      last_activity = later st.last_activity t.newest;
      cwd = if is_nil t.session_cwd then st.cwd else t.session_cwd;
      command_cwd = if is_nil t.command_cwd then st.command_cwd else t.command_cwd;
    }
    else st

module _ (decode : Str → Option CodexLine) where
  unfoldable pub scan_rollout : List Str → Str × CodexTail → Str × CodexTail
  unfolding scan_rollout_line
  scan_rollout [] x = x
  scan_rollout (l ∷ ls) x = scan_rollout ls (scan_rollout_line (decode l) x)

  -- `parseCodexTail`
  unfoldable pub parse_codex_tail : Str → Str → CodexTail
  unfolding scan_rollout split_lines
  parse_codex_tail bytes root = (scan_rollout (split_lines bytes) (root, no_codex_tail)).1

  abbrev pub consume : Str → CodexSession → CodexSession
  consume lines st =
      if is_nil lines then st else record (take_codex_tail (parse_codex_tail lines st.cwd) st) {
        offset = st.offset + length lines;
      }

  -- The session after a look at its file. A file untouched for the grace is not read.
  unfoldable pub read_rollout : ℕ → ℕ → ℕ × ℕ → Option Str → CodexSession → CodexSession
  unfolding parse_codex_tail take_codex_tail whole_lines drop
  read_rollout grace now (size, mtime) read st =
      let st' = if ltb size st.offset then record st { offset = 0 } else st in
      if leb (mtime + grace) now
      then record st' { offset = size }
      else if ltb st'.offset size
      then (elim read [
        | none ↦ st'
        | some bytes ↦ consume (whole_lines (drop st'.offset bytes)) st'
      ])
      else st'

abbrev last_of : ℕ → Str → Str
last_of n s = drop (length s - n) s

-- `codexSessionID`, of a name without the extension
unfoldable pub codex_session_id : Str → Str
unfolding drop
codex_session_id name = if ltb 36 (length name) then last_of 36 name else name

-- A rollout file of the days that are looked at: its path, its name without the extension, and what
-- the look at it finds.
pub record Rollout : Type 0 where
  pub path : Str
  pub name : Str
  pub view : FileView

-- From the grace gate on. A command's directory comes before the session's.
unfoldable pub emit_rollout : ℕ → ℕ → List Str → Str → CodexSession → Option Signal
unfolding codex_session_id
emit_rollout grace now patterns name st =
    let cwd = if is_nil st.command_cwd then st.cwd else st.command_cwd in
    if leb (st.last_activity + grace) now
      || is_nil cwd
      || not (cwd_matches_any_pattern cwd patterns)
    then none
    else some (record {
      source = Source.transcript;
      bundle_id = [];
      window_title = codex_session_id name;
      binary_name = codes "codex";
      cwd = cwd;
      space_id = [];
    })

unfoldable pub codex_state_of : Str → List (Str × CodexSession) → CodexSession
codex_state_of path [] = new_codex_session
codex_state_of path ((p, st) ∷ states) = if str_eq path p then st else codex_state_of path states

module _ (decode : Str → Option CodexLine) where
  -- The body of the loop over the files. A file that `Stat` does not find keeps what is known of it.
  unfoldable pub collect_rollout :
      ℕ
      → ℕ
      → List Str
      → Rollout
      → List (Str × CodexSession)
      → Option Signal × List (Str × CodexSession)
  unfolding read_rollout emit_rollout codex_state_of
  collect_rollout grace now patterns f states = elim f.view.stat [
    | none ↦ (none, states)
    | some at ↦
        let st = read_rollout decode grace now at f.view.read (codex_state_of f.path states) in
        (
          emit_rollout grace now patterns f.name st,
          (f.path, st) ∷ keep (λ x. not (str_eq f.path x.0)) states,
        )
  ]

  unfoldable pub collect_rollouts :
      ℕ
      → ℕ
      → List Str
      → List Rollout
      → List (Str × CodexSession)
      → List Signal × List (Str × CodexSession)
  unfolding collect_rollout
  collect_rollouts grace now patterns [] states = ([], states)
  collect_rollouts grace now patterns (f ∷ fs) states =
      let (sig, states') = collect_rollout grace now patterns f states in
      let (sigs, states'') = collect_rollouts grace now patterns fs states' in
      (and_signal sig sigs, states'')

  -- `collectCodexSignals`, over the rollout files that could be listed; `none` is a root that is not
  -- configured, and a collector that is switched off.
  unfoldable pub collect_codex_signals :
      ℕ
      → ℕ
      → List Str
      → Option (List Rollout)
      → List (Str × CodexSession)
      → List Signal × List (Str × CodexSession)
  unfolding collect_rollouts
  collect_codex_signals grace now patterns none states = ([], states)
  collect_codex_signals grace now patterns (some fs) states =
      let (sigs, states') = collect_rollouts grace now patterns fs states in
      (sigs, keep (λ x. any (λ f. str_eq f.path x.0) fs) states')
