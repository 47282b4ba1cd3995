-- ===== src/Daemon/Import/Grid/Again.antt =====
-- The import of the same transcripts a second time.
use antitimely.Prelude.{
  ℕ, zero, suc, ◌+◌, ◌≡◌, refl, inl, inr, true, false, Option, none, some, List, [], ◌∷◌, ltb,
  arith, Bool-cases, subst, ==_refl,
}
use antitimely.Domain.Signal.{Signal}
use antitimely.Domain.Rules.{match_rules}
use antitimely.Store.Tables.{Tick}
use antitimely.Store.Observing.{Db, insert_tick, has_tick, upsert_observation, find_key}
use antitimely.Store.Observing.Keys.{upsert_observation-find_key}
use antitimely.Daemon.Gate.Rows.{upsert_observation-keeps}
use antitimely.Daemon.Import.{
  ImportFaults, Progress, near, followed, lay_tick, lay_block, block_fuel, lay_blocks, scan_entries,
  split_blocks, Transcript, ImportArgs, cwd_of, import_blocks, import_file, import_transcripts,
  transcript_signal,
}

-- The later tables have every row and every observation that the earlier ones have.
pub record Later (db db' : Db) : Type 0 where
  pub near_kept : (i p ts : ℕ) → near i p ts db.ticks ≡ true → near i p ts db'.ticks ≡ true
  pub tick_kept : (ts obs : ℕ) → has_tick ts obs db.ticks ≡ true → has_tick ts obs db'.ticks ≡ true
  pub key_kept :
      (s : Signal) (i : ℕ)
      → find_key s db.observations ≡ some i
      → find_key s db'.observations ≡ some i

Later-refl : (db : Db) → Later db db
Later-refl db = record {
  near_kept = λ i p ts h. h;
  tick_kept = λ ts obs h. h;
  key_kept = λ s i h. h;
}

Later-trans : (a b c : Db) → Later a b → Later b c → Later a c
Later-trans a b c h k = record {
  near_kept = λ i p ts x. k.near_kept i p ts (h.near_kept i p ts x);
  tick_kept = λ ts obs x. k.tick_kept ts obs (h.tick_kept ts obs x);
  key_kept = λ s i x. k.key_kept s i (h.key_kept s i x);
}

-- A part of the import that went through: the tables only grew, and on these or any later tables it
-- goes through again and changes nothing.
abbrev pub Settles : (ℕ → Db → Option Progress) → Db → Type 0
Settles f db =
    (n n' : ℕ) (db' : Db)
    → f n db ≡ some (Progress.going n' db')
    → Later db db'
      × ((m : ℕ) (db'' : Db)
          → Later db' db''
          → (m' : ℕ) × (f m db'' ≡ some (Progress.going m' db'')))

going_cases :
    (o : Option Progress) (f : ℕ → Db → Option Progress) (n' : ℕ) (db' : Db)
    → followed o f ≡ some (Progress.going n' db')
    → (n : ℕ) × (db : Db) × (o ≡ some (Progress.going n db))
      × (f n db ≡ some (Progress.going n' db'))
unfolding followed
going_cases none f n' db' h = absurd (ground arith)
going_cases (some (Progress.stopped n db)) f n' db' h = absurd (ground arith)
going_cases (some (Progress.going n db)) f n' db' h = (n, db, refl, h)

followed-Settles :
    (f g : ℕ → Db → Option Progress) (db : Db)
    → Settles f db
    → ((db' : Db) → Settles g db')
    → Settles (λ n d. followed (f n d) g) db
unfolding followed
followed-Settles f g db hf hg n n' db' h =
    let (k, mid, first, second) = going_cases (f n db) g n' db' h in
    let (later, again) = hf n k mid first in
    let (later', again') = hg mid k n' db' second in
    (
      Later-trans db mid db' later later',
      λ m db'' l.
          let (m', e) = again m db'' (Later-trans mid db' db'' later' l) in
          let (m'', e') = again' m' db'' l in (m'', rw e e'),
    )

add_tick-Later : (t : Tick) (db : Db) → Later db (insert_tick t db)
unfolding insert_tick near has_tick
add_tick-Later t db = record {
  near_kept = λ i p ts h. ground arith;
  tick_kept = λ ts obs h. ground arith;
  key_kept = λ s i h. ground arith;
}

has_tick-insert :
    (ts obs : ℕ) (p : Option ℕ) (db : Db)
    → has_tick ts obs
        (insert_tick (record { ts = ts; observation_id = obs; project_id = p }) db).ticks
      ≡ true
unfolding insert_tick has_tick
has_tick-insert ts obs p db = ground (arith, ==_refl ts, ==_refl obs)

insert_tick-known :
    (t : Tick) (db : Db) → has_tick t.ts t.observation_id db.ticks ≡ true → insert_tick t db ≡ db
unfolding insert_tick
insert_tick-known t db h = rw h refl

going_injective :
    (n m : ℕ) (db db' : Db) → some (Progress.going n db) ≡ some (Progress.going m db') → db ≡ db'
going_injective n m db db' h = cc

lay_tick-Settles :
    (f : ImportFaults) (interval p obs ts : ℕ) (db : Db)
    → f.look ts ≡ false
    → Settles (λ n d. some (lay_tick f interval p obs ts n d)) db
unfolding lay_tick
lay_tick-Settles f interval p obs ts db look n n' db' h =
    elim (Bool-cases (near interval p ts db.ticks)) [
      | inl e ↦
          let same : db ≡ db' = going_injective n n' db db' (rw (e, look) at h) in
          (
            subst (Later db) same (Later-refl db),
            λ m db'' later.
                let e' =
                  later.near_kept interval p ts
                    (subst (λ d. near interval p ts d.ticks ≡ true) same e) in
                (m, rw (e', look) refl),
          )
      | inr e ↦ elim (Bool-cases (f.insert ts)) [
        | inl x ↦ absurd (cc (rw (e, x) at h))
        | inr x ↦
            let t : Tick = record { ts = ts; observation_id = obs; project_id = some p } in
            let same : insert_tick t db ≡ db' =
              going_injective (suc n) n' (insert_tick t db) db' (rw (e, x) at h) in
            (
              subst (Later db) same (add_tick-Later t db),
              λ m db'' later.
                  let known = later.tick_kept ts obs (
                    subst (λ d. has_tick ts obs d.ticks ≡ true) same
                      (has_tick-insert ts obs (some p) db)) in
                  elim (Bool-cases (near interval p ts db''.ticks)) [
                    | inl k ↦ (m, rw (k, look) refl)
                    | inr k ↦ (suc m, rw (k, x, insert_tick-known t db'' known) refl)
                  ],
            )
      ]
    ]

done-Settles : (db : Db) → Settles (λ n d. some (Progress.going n d)) db
done-Settles db n n' db' h =
    (subst (Later db) (going_injective n n' db db' h) (Later-refl db), λ m db'' later. (m, refl))

lay_block-Settles :
    (f : ImportFaults) (interval p obs fuel ts end : ℕ) (db : Db)
    → ((t : ℕ) → f.look t ≡ false)
    → Settles (lay_block f interval p obs fuel ts end) db
unfolding lay_block
lay_block-Settles f interval p obs zero ts end db look = λ n n' db' h. absurd (ground arith)
lay_block-Settles f interval p obs (suc fuel) ts end db look = elim (Bool-cases (ltb end ts)) [
  | inl e ↦ rw e (done-Settles db)
  | inr e ↦ rw e (
      followed-Settles (λ n d. some (lay_tick f interval p obs ts n d)) _ db
        (lay_tick-Settles f interval p obs ts db (look ts))
        (λ d. lay_block-Settles f interval p obs fuel (ts + interval) end d look))
]

lay_blocks-Settles :
    (f : ImportFaults) (interval p obs : ℕ) (blocks : List (ℕ × ℕ)) (db : Db)
    → ((t : ℕ) → f.look t ≡ false)
    → Settles (lay_blocks f interval p obs blocks) db
unfolding lay_blocks
lay_blocks-Settles f interval p obs [] db look = done-Settles db
lay_blocks-Settles f interval p obs (b ∷ blocks) db look =
    followed-Settles (lay_block f interval p obs (block_fuel b) b.0 b.1) _ db
      (lay_block-Settles f interval p obs (block_fuel b) b.0 b.1 db look)
      (λ d. lay_blocks-Settles f interval p obs blocks d look)

-- The upsert gives the id that it gave before.
upsert-known :
    (s : Signal) (now i : ℕ) (db : Db)
    → find_key s db.observations ≡ some i
    → upsert_observation s now db ≡ (i, db)
unfolding upsert_observation
upsert-known s now i db h = rw (h, upsert_observation) refl

upsert-Later : (s : Signal) (now : ℕ) (db : Db) → Later db (upsert_observation s now db).1
upsert-Later s now db =
    let (ticks, _, _) = upsert_observation-keeps s now db in
    record {
      near_kept = λ i p ts h. rw ticks h;
      tick_kept = λ ts obs h. rw ticks h;
      key_kept = (upsert_observation-find_key s now db).1;
    }

import_blocks-Settles :
    (args : ImportArgs) (t : Transcript) (p first : ℕ) (stamps : List ℕ) (db : Db)
    → ((ts : ℕ) → args.faults.look ts ≡ false)
    → Settles (import_blocks args t p first stamps) db
unfolding import_blocks
import_blocks-Settles args t p first stamps db look n n' db' h =
    elim (Bool-cases (args.faults.upsert t.session)) [
      | inl e ↦
          let (later, again) = done-Settles db n n' db' (rw e at h) in
          (later, λ m db'' l. let (m', k) = again m db'' l in (m', rw e k))
      | inr e ↦
          let s = transcript_signal (cwd_of t args.from args.to) t.session in
          let blocks = split_blocks stamps args.grace in
          let (obs, mid) = upsert_observation s first db in
          let (later, again) =
            lay_blocks-Settles args.faults args.interval p obs blocks mid look n n' db'
              (rw e at h) in
          (
            Later-trans db mid db' (upsert-Later s first db) later,
            λ m db'' l.
                let known =
                  l.key_kept s obs
                    (later.key_kept s obs (upsert_observation-find_key s first db).0) in
                let (m', k) = again m db'' l in (m', rw (e, upsert-known s first obs db'' known) k),
          )
    ]

import_file-Settles :
    (args : ImportArgs) (t : Transcript) (db : Db)
    → ((ts : ℕ) → args.faults.look ts ≡ false)
    → Settles (import_file args t) db
unfolding import_file
import_file-Settles args t db look = go ((scan_entries t.lines args.from args.to).1)
  where
    project :
        (o : Option ℕ) (first : ℕ) (stamps : List ℕ)
        → Settles
            (λ n d. elim o as (λ x. Option Progress) [
              | none ↦ some (Progress.going n d)
              | some p ↦ import_blocks args t p first (first ∷ stamps) n d
            ])
            db
    project none first stamps = done-Settles db
    project (some p) first stamps = import_blocks-Settles args t p first (first ∷ stamps) db look

    go :
        (stamps : List ℕ)
        → Settles
            (λ n d. elim stamps as (λ x. Option Progress) [
              | [] ↦ some (Progress.going n d)
              | first ∷ rest ↦
                  elim (match_rules
                    (transcript_signal (cwd_of t args.from args.to) [])
                    args.rules) [
                      | none ↦ some (Progress.going n d)
                      | some p ↦ import_blocks args t p first (first ∷ rest) n d
                    ]
            ])
            db
    go [] = done-Settles db
    go (first ∷ rest) =
        project (match_rules (transcript_signal (cwd_of t args.from args.to) []) args.rules) first
          rest

import-Settles :
    (args : ImportArgs) (transcripts : List Transcript) (db : Db)
    → ((ts : ℕ) → args.faults.look ts ≡ false)
    → Settles (import_transcripts args transcripts) db
unfolding import_transcripts
import-Settles args [] db look = done-Settles db
import-Settles args (t ∷ ts) db look =
    followed-Settles (import_file args t) _ db (import_file-Settles args t db look)
      (λ d. import-Settles args ts d look)

-- Where reads succeed, an import that went through can be run again, with the same arguments on the
-- tables that it left: it goes through, and adds no row and no observation.
pub import_transcripts_again :
    (args : ImportArgs) (transcripts : List Transcript) (n n' m : ℕ) (db db' : Db)
    → ((ts : ℕ) → args.faults.look ts ≡ false)
    → import_transcripts args transcripts n db ≡ some (Progress.going n' db')
    → (m' : ℕ) × (import_transcripts args transcripts m db' ≡ some (Progress.going m' db'))
import_transcripts_again args transcripts n n' m db db' look h =
    (import-Settles args transcripts db look n n' db' h).1 m db' (Later-refl db')
