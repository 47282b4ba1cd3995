-- ===== src/Daemon/Import.antt =====
-- internal/daemon/transcript_import.go: past transcripts become ticks. A transcript is given as its
-- lines, decoded.
pub mod Blocks
pub mod Grid
use antitimely.Prelude.{
  ℕ, zero, suc, ◌+◌, ◌-◌, ◌≡◌, Bool, true, false, ◌&&◌, ◌||◌, Option, none, some, List, [], ◌∷◌,
  ◌==◌, ltb, leb, if◌then◌else◌,
}
use antitimely.Prelude.Text.{Str, codes}
use antitimely.Domain.Signal.{Source, Signal, RuleSpec}
use antitimely.Domain.Path.{slash}
use antitimely.Domain.Cwd.{is_nil}
use antitimely.Domain.Rules.{match_rules}
use antitimely.Store.Tables.{Tick}
use antitimely.Store.Observing.{Db, upsert_observation, insert_tick}

-- The timestamp field of an entry: empty, not in RFC 3339, or a moment.
pub data Stamp : Type 0 where
  absent unreadable : Stamp
  at : ℕ → Stamp

-- `transcriptEntry`
pub record TranscriptEntry : Type 0 where
  pub cwd : Str
  pub timestamp : Stamp

-- A line that is empty or does not decode is `none`.
abbrev pub Line : Type 0
Line = Option TranscriptEntry

-- `decodeProjectDir`
unfoldable pub decode_project_dir : Str → Str
decode_project_dir [] = []
decode_project_dir (c ∷ s) = (if c == 45 then slash else c) ∷ decode_project_dir s

unfoldable pub insert_stamp : ℕ → List ℕ → List ℕ
insert_stamp x [] = x ∷ []
insert_stamp x (y ∷ ys) = let rest = insert_stamp x ys in if ltb y x then y ∷ rest else x ∷ y ∷ ys

-- The stamps in the range, sorted.
unfoldable pub stamps_of : ℕ → ℕ → List Line → List ℕ
unfolding insert_stamp
stamps_of from to [] = []
stamps_of from to (none ∷ lines) = stamps_of from to lines
stamps_of from to (some e ∷ lines) =
    let rest = stamps_of from to lines in
    elim e.timestamp [
      | at u ↦ if leb from u && leb u to then insert_stamp u rest else rest
      | _ ↦ rest
    ]

-- The last directory that an entry names.
unfoldable pub last_cwd : Str → List Line → Str
last_cwd cwd [] = cwd
last_cwd cwd (none ∷ lines) = last_cwd cwd lines
last_cwd cwd (some e ∷ lines) = last_cwd (if is_nil e.cwd then cwd else e.cwd) lines

-- `scanEntries`
unfoldable pub scan_entries : List Line → ℕ → ℕ → Str × List ℕ
unfolding last_cwd stamps_of
scan_entries lines from to = (last_cwd [] lines, stamps_of from to lines)

-- The loop of `splitBlocks`, with the block that is open.
unfoldable pub split_from : ℕ → ℕ → ℕ → List ℕ → List (ℕ × ℕ)
split_from grace start prev [] = (start, prev) ∷ []
split_from grace start prev (s ∷ stamps) =
    let next = split_from grace s s stamps in
    let longer = split_from grace start s stamps in
    if ltb (prev + grace) s then (start, prev) ∷ next else longer

-- `splitBlocks`
unfoldable pub split_blocks : List ℕ → ℕ → List (ℕ × ℕ)
unfolding split_from
split_blocks [] grace = []
split_blocks (s ∷ stamps) grace = split_from grace s s stamps

-- Which calls of the database fail: the upsert of a file, the look at a moment, its insert.
pub record ImportFaults : Type 0 where
  pub upsert : Str → Bool
  pub look : ℕ → Bool
  pub insert : ℕ → Bool

abbrev is_of : ℕ → Option ℕ → Bool
is_of p none = false
is_of p (some q) = q == p

-- A row of the project less than `interval` away; the query's window is `interval - 1` to each side.
unfoldable pub near : ℕ → ℕ → ℕ → List Tick → Bool
near interval p ts [] = false
near interval p ts (t ∷ ticks) =
    (is_of p t.project_id && (ltb ts (t.ts + interval) && ltb t.ts (ts + interval)))
    || near interval p ts ticks

-- What the import has at a point: the tables and the count, or an error.
pub data Progress : Type 0 where
  stopped going : ℕ → Db → Progress

-- The body of the innermost loop. A failed look reads as "no row there".
unfoldable pub lay_tick : ImportFaults → ℕ → ℕ → ℕ → ℕ → ℕ → Db → Progress
unfolding near
lay_tick f interval p obs ts n db =
    if near interval p ts db.ticks && (if f.look ts then false else true)
    then Progress.going n db
    else if f.insert ts
    then Progress.stopped n db
    else Progress.going (suc n)
        (insert_tick (record { ts = ts; observation_id = obs; project_id = some p }) db)

-- What comes after, unless an insert failed or a loop has not ended.
unfoldable pub followed : Option Progress → (ℕ → Db → Option Progress) → Option Progress
followed none f = none
followed (some (stopped n db)) f = some (Progress.stopped n db)
followed (some (going n db)) f = f n db

-- The loop over one block, on fuel; `none` is a loop that has not ended.
unfoldable pub lay_block : ImportFaults → ℕ → ℕ → ℕ → ℕ → ℕ → ℕ → ℕ → Db → Option Progress
unfolding lay_tick followed
lay_block f interval p obs zero ts end n db = none
lay_block f interval p obs (suc fuel) ts end n db =
    if ltb end ts
    then some (Progress.going n db)
    else followed (some (lay_tick f interval p obs ts n db))
        (λ n' db'. lay_block f interval p obs fuel (ts + interval) end n' db')

-- One round for each second of the block, and one for the last test.
abbrev pub block_fuel : ℕ × ℕ → ℕ
block_fuel (start, end) = suc (suc end - start)

unfoldable pub lay_blocks : ImportFaults → ℕ → ℕ → ℕ → List (ℕ × ℕ) → ℕ → Db → Option Progress
unfolding lay_block followed
lay_blocks f interval p obs [] n db = some (Progress.going n db)
lay_blocks f interval p obs (b ∷ blocks) n db =
    followed (lay_block f interval p obs (block_fuel b) b.0 b.1 n db)
      (λ n' db'. lay_blocks f interval p obs blocks n' db')

-- A transcript: the name of its directory, its own without the extension, and its lines.
pub record Transcript : Type 0 where
  pub dir : Str
  pub session : Str
  pub lines : List Line

pub record ImportArgs : Type 0 where
  pub from : ℕ
  pub to : ℕ
  pub grace : ℕ
  pub interval : ℕ
  pub rules : List RuleSpec
  pub faults : ImportFaults

abbrev pub transcript_signal : Str → Str → Signal
transcript_signal cwd title = record {
  source = Source.transcript;
  bundle_id = [];
  window_title = title;
  binary_name = [];
  cwd = cwd;
  space_id = [];
}

-- The directory that counts: what the body says, else what the directory's name decodes to.
unfoldable pub cwd_of : Transcript → ℕ → ℕ → Str
unfolding scan_entries decode_project_dir
cwd_of t from to =
    let cwd = (scan_entries t.lines from to).0 in
    if is_nil cwd then decode_project_dir t.dir else cwd

-- One file, once it is known to have stamps and a project.
unfoldable pub import_blocks : ImportArgs → Transcript → ℕ → ℕ → List ℕ → ℕ → Db → Option Progress
unfolding cwd_of split_blocks lay_blocks
import_blocks args t p first stamps n db =
    if args.faults.upsert t.session
    then some (Progress.going n db)
    else (let (obs, db') =
          upsert_observation (transcript_signal (cwd_of t args.from args.to) t.session) first db in
        lay_blocks args.faults args.interval p obs (split_blocks stamps args.grace) n db')

unfoldable pub import_file : ImportArgs → Transcript → ℕ → Db → Option Progress
unfolding import_blocks scan_entries
import_file args t n db = elim ((scan_entries t.lines args.from args.to).1) [
  | [] ↦ some (Progress.going n db)
  | first ∷ stamps ↦
      elim (match_rules (transcript_signal (cwd_of t args.from args.to) []) args.rules) [
        | none ↦ some (Progress.going n db)
        | some p ↦ import_blocks args t p first (first ∷ stamps) n db
      ]
]

-- `importTranscripts`, over the transcripts that could be read
unfoldable pub import_transcripts : ImportArgs → List Transcript → ℕ → Db → Option Progress
unfolding import_file followed
import_transcripts args [] n db = some (Progress.going n db)
import_transcripts args (t ∷ ts) n db =
    followed (import_file args t n db) (λ n' db'. import_transcripts args ts n' db')
