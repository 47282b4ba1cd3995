-- ===== src/Daemon/Import/Grid.antt =====
-- Where the import may lay a tick, and that its loops end.
pub mod Again
use antitimely.Prelude.{
  ℕ, zero, suc, ◌+◌, ◌-◌, ◌≤◌, ◌<◌, ◌≡◌, ◌≢◌, refl, ◌⊎◌, inl, inr, Bool, true, false, ◌&&◌, ◌||◌,
  Option, none, some, List, [], ◌∷◌, ltb, leb, if◌then◌else◌, arith, Bool-cases, Option-cases, All,
  ap, ◌∙◌, sym, ◌==◌, subst,
}
use antitimely.Prelude.Text.{Str}
use antitimely.Domain.Rules.{match_rules}
use antitimely.Store.Tables.{Tick}
use antitimely.Store.Observing.{Db, insert_tick, has_tick, upsert_observation}
use antitimely.Daemon.Gate.Rows.{upsert_observation-keeps}
use antitimely.Daemon.Import.{
  Stamp, Line, TranscriptEntry, ImportFaults, Progress, near, followed, lay_tick, lay_block,
  block_fuel, lay_blocks, insert_stamp, stamps_of, scan_entries, split_from, split_blocks,
  Transcript, ImportArgs, cwd_of, import_blocks, import_file, import_transcripts, transcript_signal,
}

abbrev pub db_of : Progress → Db
db_of (Progress.stopped n db) = db
db_of (Progress.going n db) = db

-- A row of another project, or at least `interval` seconds away.
abbrev pub IsApart : ℕ → ℕ → ℕ → Tick → Type 0
IsApart interval p ts u = (u.project_id ≢ some p) ⊎ (u.ts + interval ≤ ts) ⊎ (ts + interval ≤ u.ts)

-- A row for a project, in the range of the import, apart from the rows that are there.
abbrev pub IsFresh : ImportArgs → Tick → List Tick → Type 0
IsFresh args t ticks =
    (p : ℕ) × (t.project_id ≡ some p)
    × (args.from ≤ t.ts)
    × (t.ts ≤ args.to)
    × All (IsApart args.interval p t.ts) ticks

-- Rows grew by fresh rows alone.
pub data Grown (args : ImportArgs) (old : List Tick) : List Tick → Type 0 where
  same : Grown args old old
  add :
      {ticks : List Tick}
      → (t : Tick) → Grown args old ticks
      → IsFresh args t ticks
      → Grown args old (t ∷ ticks)

Grown-trans :
    (args : ImportArgs) {a b c : List Tick} → Grown args a b → Grown args b c → Grown args a c
Grown-trans args g same = g
Grown-trans args g (add t h fresh) = add t (Grown-trans args g h) fresh

near-IsApart :
    (interval p ts : ℕ) (ticks : List Tick)
    → near interval p ts ticks ≡ false
    → All (IsApart interval p ts) ticks
unfolding near
near-IsApart interval p ts [] h = tt
near-IsApart interval p ts (t ∷ ticks) h =
    let rest = near-IsApart interval p ts ticks (ground arith) in
    elim (Option-cases t.project_id) [
      | inl e ↦ (inl (λ k. cc (e, k)), rest)
      | inr (q, e) ↦ elim (Bool-cases (q == p)) [
        | inl ours ↦ (inr (ground arith), rest)
        | inr other ↦ (inl (λ k. ground arith), rest)
      ]
    ]

-- What one candidate leaves.
lay_tick-Grown :
    (args : ImportArgs) (p obs ts n : ℕ) (db : Db)
    → args.faults.look ts ≡ false
    → args.from ≤ ts
    → ts ≤ args.to
    → Grown args db.ticks (db_of (lay_tick args.faults args.interval p obs ts n db)).ticks
unfolding lay_tick insert_tick
lay_tick-Grown args p obs ts n db look low high =
    elim (Bool-cases (near args.interval p ts db.ticks)) [
      | inl e ↦ rw (e, look) same
      | inr e ↦ elim (Bool-cases (args.faults.insert ts)) [
        | inl f ↦ rw (e, f) same
        | inr f ↦ elim (Bool-cases (has_tick ts obs db.ticks)) [
          | inl k ↦ rw (e, f, k) same
          | inr k ↦
              rw (e, f, k)
                (add _ same (p, refl, low, high, near-IsApart args.interval p ts db.ticks e))
        ]
      ]
    ]

-- What a part of the import does: it ends, and has added fresh rows alone.
abbrev pub Ends : ImportArgs → List Tick → Option Progress → Type 0
Ends args old o = (r : Progress) × (o ≡ some r) × Grown args old (db_of r).ticks

followed-Ends :
    (args : ImportArgs) (old : List Tick) (o : Option Progress) (f : ℕ → Db → Option Progress)
    → Ends args old o
    → ((n : ℕ) (db : Db) → Ends args db.ticks (f n db))
    → Ends args old (followed o f)
unfolding followed
followed-Ends args old o f (Progress.stopped n db, e, g) rest =
    rw e (Progress.stopped n db, refl, g)
followed-Ends args old o f (Progress.going n db, e, g) rest =
    let (r, k, h) = rest n db in rw e (r, k, Grown-trans args g h)

-- The look at the tables never fails, and candidates are at least a second apart.
pub record IsSteady (args : ImportArgs) : Type 0 where
  pub step : 1 ≤ args.interval
  pub look : (ts : ℕ) → args.faults.look ts ≡ false

lay_block-Ends :
    (args : ImportArgs) (p obs fuel ts end n : ℕ) (db : Db)
    → IsSteady args
    → args.from ≤ ts
    → end ≤ args.to
    → suc end - ts < fuel
    → Ends args db.ticks (lay_block args.faults args.interval p obs fuel ts end n db)
unfolding lay_block
lay_block-Ends args p obs zero ts end n db steady low high enough = absurd (omega arith)
lay_block-Ends args p obs (suc fuel) ts end n db steady low high enough =
    elim (Bool-cases (ltb end ts)) [
      | inl e ↦ rw e (Progress.going n db, refl, same)
      | inr e ↦
          let step = steady.step in
          let rest = λ (n' : ℕ) (db' : Db).
            lay_block-Ends args p obs fuel (ts + args.interval) end n' db' steady (omega arith) high
              (ground arith) in
          let once = lay_tick-Grown args p obs ts n db (steady.look ts) low (ground arith) in
          rw e (
            followed-Ends args db.ticks (some (lay_tick args.faults args.interval p obs ts n db)) _
              (_, refl, once) rest)
    ]

abbrev InRange : ImportArgs → ℕ × ℕ → Type 0
InRange args b = (args.from ≤ b.0) × (b.1 ≤ args.to)

lay_blocks-Ends :
    (args : ImportArgs) (p obs : ℕ) (blocks : List (ℕ × ℕ)) (n : ℕ) (db : Db)
    → IsSteady args
    → All (InRange args) blocks
    → Ends args db.ticks (lay_blocks args.faults args.interval p obs blocks n db)
unfolding lay_blocks
lay_blocks-Ends args p obs [] n db steady h = (Progress.going n db, refl, same)
lay_blocks-Ends args p obs (b ∷ blocks) n db steady ((low, high), h) =
    followed-Ends args db.ticks _ _
      (lay_block-Ends args p obs (block_fuel b) b.0 b.1 n db steady low high (omega arith))
      (λ n' db'. lay_blocks-Ends args p obs blocks n' db' steady h)

abbrev Stamped : ImportArgs → ℕ → Type 0
Stamped args s = (args.from ≤ s) × (s ≤ args.to)

insert_stamp-Stamped :
    (args : ImportArgs) (s : ℕ) (stamps : List ℕ)
    → Stamped args s
    → All (Stamped args) stamps
    → All (Stamped args) (insert_stamp s stamps)
unfolding insert_stamp
insert_stamp-Stamped args s [] h k = (h, tt)
insert_stamp-Stamped args s (t ∷ stamps) h k = elim (Bool-cases (ltb t s)) [
  | inl e ↦ rw e (k.0, insert_stamp-Stamped args s stamps h k.1)
  | inr e ↦ rw e (h, k)
]

stamps_of-Stamped :
    (args : ImportArgs) (lines : List Line) → All (Stamped args) (stamps_of args.from args.to lines)
unfolding stamps_of
stamps_of-Stamped args [] = tt
stamps_of-Stamped args (none ∷ lines) = stamps_of-Stamped args lines
stamps_of-Stamped args (some e ∷ lines) = stamped e.timestamp (stamps_of-Stamped args lines)
  where
    rest : List ℕ
    rest = stamps_of args.from args.to lines

    stamped :
        (s : Stamp)
        → All (Stamped args) rest
        → All (Stamped args) (elim s as (λ x. List ℕ) [
          | Stamp.at u ↦ if leb args.from u && leb u args.to then insert_stamp u rest else rest
          | _ ↦ rest
        ])
    stamped Stamp.absent h = h
    stamped Stamp.unreadable h = h
    stamped (Stamp.at u) h = elim (Bool-cases (leb args.from u && leb u args.to)) [
      | inl k ↦ rw k (insert_stamp-Stamped args u rest (ground arith) h)
      | inr k ↦ rw k h
    ]

split_from-InRange :
    (args : ImportArgs) (grace start prev : ℕ) (stamps : List ℕ)
    → args.from ≤ start
    → prev ≤ args.to
    → All (Stamped args) stamps
    → All (InRange args) (split_from grace start prev stamps)
unfolding split_from
split_from-InRange args grace start prev [] h k all = ((h, k), tt)
split_from-InRange args grace start prev (s ∷ stamps) h k ((low, high), all) =
    elim (Bool-cases (ltb (prev + grace) s)) [
      | inl e ↦ rw e ((h, k), split_from-InRange args grace s s stamps low high all)
      | inr e ↦ rw e (split_from-InRange args grace start s stamps h high all)
    ]

split_blocks-InRange :
    (args : ImportArgs) (stamps : List ℕ)
    → All (Stamped args) stamps
    → All (InRange args) (split_blocks stamps args.grace)
unfolding split_blocks
split_blocks-InRange args [] all = tt
split_blocks-InRange args (s ∷ stamps) ((low, high), all) =
    split_from-InRange args args.grace s s stamps low high all

import_blocks-Ends :
    (args : ImportArgs) (t : Transcript) (p first : ℕ) (stamps : List ℕ) (n : ℕ) (db : Db)
    → IsSteady args
    → All (Stamped args) stamps
    → Ends args db.ticks (import_blocks args t p first stamps n db)
unfolding import_blocks
import_blocks-Ends args t p first stamps n db steady all =
    elim (Bool-cases (args.faults.upsert t.session)) [
      | inl e ↦ rw e (Progress.going n db, refl, same)
      | inr e ↦
          let sig = transcript_signal (cwd_of t args.from args.to) t.session in
          let (obs, db') = upsert_observation sig first db in
          let kept = (upsert_observation-keeps sig first db).0 in
          rw e (
            subst
              (λ old.
                Ends args old (
                  lay_blocks args.faults args.interval p obs (split_blocks stamps args.grace) n
                    db'))
              kept
              (lay_blocks-Ends args p obs (split_blocks stamps args.grace) n db' steady
                (split_blocks-InRange args stamps all)))
    ]

import_file-Ends :
    (args : ImportArgs) (t : Transcript) (n : ℕ) (db : Db)
    → IsSteady args
    → Ends args db.ticks (import_file args t n db)
unfolding import_file scan_entries
import_file-Ends args t n db steady =
    go (stamps_of args.from args.to t.lines) (stamps_of-Stamped args t.lines)
  where
    project :
        (o : Option ℕ) (first : ℕ) (stamps : List ℕ)
        → All (Stamped args) (first ∷ stamps)
        → Ends args db.ticks (elim o as (λ x. Option Progress) [
          | none ↦ some (Progress.going n db)
          | some p ↦ import_blocks args t p first (first ∷ stamps) n db
        ])
    project none first stamps all = (Progress.going n db, refl, same)
    project (some p) first stamps all =
        import_blocks-Ends args t p first (first ∷ stamps) n db steady all

    go :
        (stamps : List ℕ)
        → All (Stamped args) stamps
        → Ends args db.ticks (elim stamps as (λ x. Option Progress) [
          | [] ↦ some (Progress.going n db)
          | first ∷ rest ↦
              elim (match_rules (transcript_signal (cwd_of t args.from args.to) []) args.rules) [
                | none ↦ some (Progress.going n db)
                | some p ↦ import_blocks args t p first (first ∷ rest) n db
              ]
        ])
    go [] all = (Progress.going n db, refl, same)
    go (first ∷ rest) all =
        project (match_rules (transcript_signal (cwd_of t args.from args.to) []) args.rules) first
          rest all

-- With an interval of a second or more and a database whose reads succeed, the import ends, whichever
-- upserts and inserts fail, and has added rows alone: each in the range, for a project, and at least
-- the interval away from every row that the project had when it was added.
pub import_transcripts-Ends :
    (args : ImportArgs) (transcripts : List Transcript) (n : ℕ) (db : Db)
    → IsSteady args
    → Ends args db.ticks (import_transcripts args transcripts n db)
unfolding import_transcripts
import_transcripts-Ends args [] n db steady = (Progress.going n db, refl, same)
import_transcripts-Ends args (t ∷ ts) n db steady =
    followed-Ends args db.ticks _ _ (import_file-Ends args t n db steady)
      (λ n' db'. import_transcripts-Ends args ts n' db' steady)
