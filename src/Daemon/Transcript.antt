-- ===== src/Daemon/Transcript.antt =====
-- internal/daemon/transcript.go: the sessions of Claude Code, read from the end of their transcripts.
-- What a line decodes to is a parameter.
pub mod Growing
pub mod Gated
use antitimely.Prelude.{
  ℕ, zero, suc, ◌+◌, ◌≡◌, Bool, true, false, not, ◌&&◌, ◌||◌, Option, none, some, List, [], ◌∷◌,
  ◌++◌, ◌==◌, ltb, leb, if◌then◌else◌, any, keep, length,
}
use antitimely.Prelude.Int.{ℤ, pos, ltb_ℤ}
use antitimely.Prelude.Text.{Str, str_eq}
use antitimely.Domain.Signal.{Source, Signal}
use antitimely.Domain.Cwd.{is_nil}
use antitimely.Daemon.Cache.{CacheSnapshot}
use antitimely.Daemon.Agent.{cwd_matches_any_pattern}
use antitimely.Daemon.Import.{Stamp, TranscriptEntry, Line, decode_project_dir}

-- The results of `parseTranscriptTail`
pub record Tail : Type 0 where
  pub cwd : Str
  pub newest : ℕ
  pub dated : Bool

abbrev pub no_tail : Tail
no_tail = record { cwd = []; newest = 0; dated = false }

abbrev pub later : ℕ → ℕ → ℕ
later a b = if ltb a b then b else a

abbrev pub date_tail : Stamp → Tail → Tail
date_tail (Stamp.at u) t = record t { newest = later t.newest u; dated = true }
date_tail Stamp.absent t = t
date_tail Stamp.unreadable t = t

-- The body of the loop.
unfoldable pub scan_line : Line → Tail → Tail
scan_line none t = t
scan_line (some e) t = date_tail e.timestamp (if is_nil e.cwd then t else record t { cwd = e.cwd })

abbrev pub push : ℕ → List Str → List Str
push c [] = (c ∷ []) ∷ []
push c (l ∷ ls) = (c ∷ l) ∷ ls

-- `bytes.Split(data, "\n")`
unfoldable pub split_lines : Str → List Str
split_lines [] = [] ∷ []
split_lines (c ∷ s) = let rest = split_lines s in if c == 10 then [] ∷ rest else push c rest

-- `p.transcriptState` at one path; the zero value is a session not seen before.
pub record Session : Type 0 where
  pub offset : ℕ
  pub last_activity : ℕ
  pub cwd : Str

abbrev pub new_session : Session
new_session = record { offset = 0; last_activity = 0; cwd = [] }

-- What `os.Stat` says, size and modification time, and the bytes that a read finds.
pub record FileView : Type 0 where
  pub stat : Option (ℕ × ℕ)
  pub read : Option Str

unfoldable pub drop : ℕ → Str → Str
drop zero s = s
drop (suc n) [] = []
drop (suc n) (c ∷ s) = drop n s

-- What a tail says is taken over when it has a date.
unfoldable pub take_tail : Tail → Session → Session
take_tail t st =
    if t.dated
    then record st {
      last_activity = later st.last_activity t.newest;
      cwd = if is_nil t.cwd then st.cwd else t.cwd;
    }
    else st

module _ (decode : Str → Line) where
  unfoldable pub scan_all : List Str → Tail → Tail
  unfolding scan_line
  scan_all [] t = t
  scan_all (l ∷ ls) t = scan_all ls (scan_line (decode l) t)

  -- `parseTranscriptTail`
  unfoldable pub parse_transcript_tail : Str → Tail
  unfolding scan_all split_lines
  parse_transcript_tail bytes = scan_all (split_lines bytes) no_tail

  -- The session after a look at the file, whose read starts at the offset. A file untouched for the
  -- grace is not read.
  unfoldable pub read_session : ℕ → ℕ → ℕ × ℕ → Option Str → Session → Session
  unfolding parse_transcript_tail take_tail drop
  read_session grace now (size, mtime) read st =
      let st' = if ltb size st.offset then record st { offset = 0 } else st in
      if leb (mtime + grace) now
      then record st' { offset = size }
      else if ltb st'.offset size
      then (elim read [
        | none ↦ st'
        | some bytes ↦ record (take_tail (parse_transcript_tail (drop st'.offset bytes)) st') {
          offset = size;
        }
      ])
      else st'

-- A session file of the root: the names of its directory and its own without the extension, and what
-- the look at it finds.
pub record SessionEntry : Type 0 where
  pub dir : Str
  pub session : Str
  pub view : FileView

-- The path of a state in `p.transcriptState`.
abbrev pub PathKey : Type 0
PathKey = Str × Str

abbrev pub same_path : PathKey → PathKey → Bool
same_path (d, n) (e, m) = str_eq d e && str_eq n m

-- `p.transcriptState` and `p.sessionPane`
pub record Sessions : Type 0 where
  pub states : List (PathKey × Session)
  pub session_pane : Str → Option Str

-- What the tick asks of herdr, of the registry of running sessions and of `ps`: no answer is `none`,
-- and an environment without the variable answers with the empty text.
pub record SpaceHost : Type 0 where
  pub space_for_session : Str → Option Str
  pub space_for_pane : Str → Option Str
  pub has_registry : Bool
  pub pid_of : Str → Option ℕ
  pub env_pane : ℕ → Option Str

abbrev pub text : Option Str → Str
text none = []
text (some s) = s

abbrev pub remember : Str → Str → (Str → Option Str) → Str → Option Str
remember k v m j = if str_eq j k then some v else m j

abbrev pub space_of_pane : SpaceHost → Str → Str
space_of_pane host pane = if is_nil pane then [] else text (host.space_for_pane pane)

-- The pane is asked of the process; a failure is not remembered.
abbrev pub probe_pane : SpaceHost → Str → (Str → Option Str) → Option ℕ → Str × (Str → Option Str)
probe_pane host session panes none = ([], panes)
probe_pane host session panes (some pid) = elim (host.env_pane pid) [
  | none ↦ ([], panes)
  | some pane ↦ (space_of_pane host pane, remember session pane panes)
]

abbrev pub unbound_space :
    SpaceHost → Str → (Str → Option Str) → Option Str → Str × (Str → Option Str)
unbound_space host session panes (some pane) = (space_of_pane host pane, panes)
unbound_space host session panes none =
    if host.has_registry then probe_pane host session panes (host.pid_of session) else ([], panes)

-- `transcriptSpace`
unfoldable pub transcript_space : SpaceHost → Str → (Str → Option Str) → Str × (Str → Option Str)
transcript_space host session panes = elim (host.space_for_session session) [
  | some space ↦ (space, panes)
  | none ↦ unbound_space host session panes (panes session)
]

unfoldable pub state_of : PathKey → List (PathKey × Session) → Session
state_of k [] = new_session
state_of k ((j, st) ∷ states) = if same_path k j then st else state_of k states

abbrev put_state : PathKey → Session → List (PathKey × Session) → List (PathKey × Session)
put_state k st states = (k, st) ∷ keep (λ x. not (same_path k x.0)) states

pub record TranscriptConfig : Type 0 where
  pub grace : ℕ
  pub patterns : List Str
  pub bound_space_ids : Str → Bool

abbrev pub session_cwd : Str → Str → Str
session_cwd dir cwd = if is_nil cwd then decode_project_dir dir else cwd

abbrev pub tracked : TranscriptConfig → Str → Str → Bool
tracked cfg cwd space =
    cwd_matches_any_pattern cwd cfg.patterns || (not (is_nil space) && cfg.bound_space_ids space)

abbrev pub transcript_signal_of : Str → Str → Str → Signal
transcript_signal_of cwd session space = record {
  source = Source.transcript;
  bundle_id = [];
  window_title = session;
  binary_name = [];
  cwd = cwd;
  space_id = space;
}

-- From the grace gate on: the signal, if there is one, and what is remembered of panes.
unfoldable pub emit_session :
    TranscriptConfig
    → SpaceHost
    → ℕ
    → SessionEntry
    → Session
    → (Str → Option Str)
    → Option Signal × (Str → Option Str)
unfolding transcript_space
emit_session cfg host now e st panes =
    if leb (st.last_activity + cfg.grace) now
    then (none, panes)
    else (let (space, panes') = transcript_space host e.session panes in
        let cwd = session_cwd e.dir st.cwd in
        (
          if tracked cfg cwd space then some (transcript_signal_of cwd e.session space) else none,
          panes',
        ))

abbrev pub and_signal : Option Signal → List Signal → List Signal
and_signal none sigs = sigs
and_signal (some s) sigs = s ∷ sigs

-- `delete(p.transcriptState, path)` with the pane of the session
unfoldable pub prune : List SessionEntry → Sessions → Sessions
prune live m = record {
  states = keep (λ x. any (λ e. same_path (e.dir, e.session) x.0) live) m.states;
  session_pane = λ s.
      if any (λ x. str_eq x.0.1 s && not (any (λ e. same_path (e.dir, e.session) x.0) live))
        m.states
      then none
      else m.session_pane s;
}

module _ (decode : Str → Line) where
  -- The body of the loop over the files. A file that `Stat` does not find keeps what is known of it.
  unfoldable pub collect_session :
      TranscriptConfig → SpaceHost → ℕ → SessionEntry → Sessions → Option Signal × Sessions
  unfolding read_session state_of emit_session
  collect_session cfg host now e m = elim e.view.stat [
    | none ↦ (none, m)
    | some at ↦
        let st =
          read_session decode cfg.grace now at e.view.read (state_of (e.dir, e.session) m.states) in
        let (sig, panes) = emit_session cfg host now e st m.session_pane in
        (sig, record { states = put_state (e.dir, e.session) st m.states; session_pane = panes })
  ]

  unfoldable pub collect_sessions :
      TranscriptConfig → SpaceHost → ℕ → List SessionEntry → Sessions → List Signal × Sessions
  unfolding collect_session
  collect_sessions cfg host now [] m = ([], m)
  collect_sessions cfg host now (e ∷ es) m =
      let (sig, m') = collect_session cfg host now e m in
      let (sigs, m'') = collect_sessions cfg host now es m' in (and_signal sig sigs, m'')

  -- `collectTranscriptSignals`, over the session files that could be listed; `none` is a root that is
  -- not configured or cannot be read, and a collector that is switched off.
  unfoldable pub collect_transcript_signals :
      TranscriptConfig
      → SpaceHost
      → ℕ
      → Option (List SessionEntry)
      → Sessions
      → List Signal × Sessions
  unfolding collect_sessions prune
  collect_transcript_signals cfg host now none m = ([], m)
  collect_transcript_signals cfg host now (some es) m =
      let (sigs, m') = collect_sessions cfg host now es m in (sigs, prune es m')
