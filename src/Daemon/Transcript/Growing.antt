-- ===== src/Daemon/Transcript/Growing.antt =====
-- Reading a transcript piece by piece, as it grows.
use mathlib.Core.List.{append_assoc, append-nil}
use antitimely.Prelude.{
  arith, inl, inr, ℕ, ◌+◌, ◌<◌, ◌≡◌, ◌⊎◌, refl, sym, ap, subst, ◌∙◌, true, false, ◌||◌, none, some,
  List, [], ◌∷◌, ◌++◌, ◌==◌, ltb, leb, if◌then◌else◌, length, length-append, Bool-cases,
}
use antitimely.Prelude.Text.{Str}
use antitimely.Domain.Cwd.{is_nil}
use antitimely.Daemon.Import.{Stamp, Line}
use antitimely.Daemon.Transcript.{
  Tail, no_tail, later, date_tail, scan_line, push, split_lines, Session, new_session, drop,
  scan_all, parse_transcript_tail, take_tail, read_session,
}

-- The second tail read after the first.
abbrev merge : Tail → Tail → Tail
merge t u = record {
  cwd = if is_nil u.cwd then t.cwd else u.cwd;
  newest = later t.newest u.newest;
  dated = t.dated || u.dated;
}

pub later_assoc : (a b c : ℕ) → later (later a b) c ≡ later a (later b c)
later_assoc a b c = ground arith

date-merge : (s : Stamp) (t u : Tail) → date_tail s (merge t u) ≡ merge t (date_tail s u)
date-merge (Stamp.at n) t u = ground (arith, later_assoc t.newest u.newest n)
date-merge Stamp.absent t u = refl
date-merge Stamp.unreadable t u = refl

scan_line-merge : (l : Line) (t u : Tail) → scan_line l (merge t u) ≡ merge t (scan_line l u)
unfolding scan_line
scan_line-merge none t u = refl
scan_line-merge (some e) t u = elim (Bool-cases (is_nil e.cwd)) [
  | inl n ↦ rw n (date-merge e.timestamp t u)
  | inr n ↦ rw n (
      ap (date_tail e.timestamp) (named e.cwd n)
      ∙ date-merge e.timestamp t (record u { cwd = e.cwd }))
]
  where
    named :
        (c : Str)
        → is_nil c ≡ false
        → record (merge t u) { cwd = c } ≡ merge t (record u { cwd = c })
    named c n = rw n refl

pub drop-append : (a b : Str) → drop (length a) (a ++ b) ≡ b
unfolding drop
drop-append [] b = refl
drop-append (c ∷ a) b = drop-append a b

push-append : (c : ℕ) (ls ms : List Str) (l : Str) → push c ((l ∷ ls) ++ ms) ≡ push c (l ∷ ls) ++ ms
push-append c ls ms l = refl

split_lines-cons : (a : Str) → (l : Str) × (ls : List Str) × (split_lines a ≡ l ∷ ls)
unfolding split_lines
split_lines-cons [] = ([], [], refl)
split_lines-cons (c ∷ a) = elim (Bool-cases (c == 10)) [
  | inl t ↦ rw t ([], split_lines a, refl)
  | inr t ↦ rw t (let (l, ls, e) = split_lines-cons a in (c ∷ l, ls, ap (push c) e))
]

-- A newline ends the line before it.
pub split_lines-append : (a b : Str) → split_lines (a ++ 10 ∷ b) ≡ split_lines a ++ split_lines b
unfolding split_lines
split_lines-append [] b = refl
split_lines-append (c ∷ a) b = elim (Bool-cases (c == 10)) [
  | inl t ↦ rw t (ap (λ ls. [] ∷ ls) (split_lines-append a b))
  | inr t ↦ rw t (pushed (split_lines a) (split_lines-cons a) (split_lines-append a b))
]
  where
    pushed :
        (ls : List Str)
        → (l : Str) × (more : List Str) × (ls ≡ l ∷ more)
        → {all : List Str} → all ≡ ls ++ split_lines b
        → push c all ≡ push c ls ++ split_lines b
    pushed ls (l, more, e) h = rw (h, e) refl

module _ (decode : Str → Line) where
  scan_all-append :
      (ls ms : List Str) (t : Tail)
      → scan_all decode (ls ++ ms) t ≡ scan_all decode ms (scan_all decode ls t)
  unfolding scan_all
  scan_all-append [] ms t = refl
  scan_all-append (l ∷ ls) ms t = scan_all-append ls ms (scan_line (decode l) t)

  scan_all-merge :
      (ls : List Str) (t u : Tail) → scan_all decode ls (merge t u) ≡ merge t (scan_all decode ls u)
  unfolding scan_all
  scan_all-merge [] t u = refl
  scan_all-merge (l ∷ ls) t u =
      ap (scan_all decode ls) (scan_line-merge (decode l) t u)
      ∙ scan_all-merge ls t (scan_line (decode l) u)

-- Nothing, or lines that have all come to their end.
abbrev pub IsWhole : Str → Type 0
IsWhole s = (s ≡ []) ⊎ ((a : Str) × (s ≡ a ++ 10 ∷ []))

-- The session is what the bytes say, all of which have been read.
abbrev pub Reads : (Str → Line) → Str → Session → Type 0
Reads decode s st =
    let t = parse_transcript_tail decode s in
    (st.offset ≡ length s) × (st.last_activity ≡ t.newest) × (st.cwd ≡ t.cwd)

-- A further piece: none, or one whose lines have a date among them.
abbrev pub IsDated : (Str → Line) → Str → Type 0
IsDated decode s = (s ≡ []) ⊎ ((parse_transcript_tail decode s).dated ≡ true)

merge_none : (t : Tail) → merge t no_tail ≡ t
merge_none t = ground arith

none_merge : (u : Tail) → merge no_tail u ≡ u
none_merge u = simp (unnamed u.cwd, later_zero u.newest) refl
  where
    unnamed : (c : Str) → (if is_nil c then [] else c) ≡ c
    unnamed [] = refl
    unnamed (x ∷ c) = refl

    later_zero : (n : ℕ) → later 0 n ≡ n
    later_zero n = ground arith

module _ (decode : Str → Line) (blank : decode [] ≡ none) where
  resumed : (ls : List Str) (t : Tail) → scan_all decode ls t ≡ merge t (scan_all decode ls no_tail)
  resumed ls t = ap (scan_all decode ls) (sym (merge_none t)) ∙ scan_all-merge decode ls t no_tail

  after_blank : (t : Tail) → scan_all decode ([] ∷ []) t ≡ t
  unfolding scan_all scan_line
  after_blank t = ap (λ l. scan_line l t) blank

  -- What follows whole lines is read as if it stood alone.
  parse-append :
      (a b : Str)
      → IsWhole a
      → parse_transcript_tail decode (a ++ b)
        ≡ merge (parse_transcript_tail decode a) (parse_transcript_tail decode b)
  unfolding parse_transcript_tail split_lines
  parse-append a b (inl e) =
      subst
        (λ x.
          parse_transcript_tail decode (x ++ b)
          ≡ merge (parse_transcript_tail decode x) (parse_transcript_tail decode b))
        (sym e)
        (sym (none_merge (parse_transcript_tail decode b))
          ∙ ap (λ t. merge t (parse_transcript_tail decode b)) (sym (after_blank no_tail)))
  parse-append a b (inr (c, e)) =
      subst
        (λ x.
          parse_transcript_tail decode (x ++ b)
          ≡ merge (parse_transcript_tail decode x) (parse_transcript_tail decode b))
        (sym e)
        (ap (λ x. scan_all decode (split_lines x) no_tail) (append_assoc c (10 ∷ []) b)
          ∙ ap (λ ls. scan_all decode ls no_tail) (split_lines-append c b)
          ∙ scan_all-append decode (split_lines c) (split_lines b) no_tail
          ∙ resumed (split_lines b) (scan_all decode (split_lines c) no_tail)
          ∙ ap (λ t. merge t (scan_all decode (split_lines b) no_tail)) (sym alone))
    where
      alone :
          scan_all decode (split_lines (c ++ 10 ∷ [])) no_tail
          ≡ scan_all decode (split_lines c) no_tail
      alone =
          ap (λ ls. scan_all decode ls no_tail) (split_lines-append c [])
          ∙ scan_all-append decode (split_lines c) ([] ∷ []) no_tail
          ∙ after_blank (scan_all decode (split_lines c) no_tail)

  grown :
      (grace now mtime : ℕ) (a b : Str) (st : Session)
      → now < mtime + grace
      → st.offset ≡ length a
      → 0 < length b
      → read_session decode grace now (length (a ++ b), mtime) (some (a ++ b)) st
        ≡ record (take_tail (parse_transcript_tail decode b) st) { offset = length (a ++ b) }
  unfolding read_session
  grown grace now mtime a b st recent at more = rw (not_cut, too_recent, behind, rest) refl
    where
      not_cut : ltb (length (a ++ b)) st.offset ≡ false
      not_cut = ground (arith, length-append a b)

      too_recent : leb (mtime + grace) now ≡ false
      too_recent = ground arith

      behind : ltb st.offset (length (a ++ b)) ≡ true
      behind = ground (arith, length-append a b)

      rest : drop st.offset (a ++ b) ≡ b
      rest = rw at (drop-append a b)

  untouched :
      (grace now mtime : ℕ) (a : Str) (st : Session)
      → now < mtime + grace
      → st.offset ≡ length a
      → read_session decode grace now (length (a ++ []), mtime) (some (a ++ [])) st ≡ st
  unfolding read_session
  untouched grace now mtime a st recent at = rw (not_cut, too_recent, not_behind) refl
    where
      not_cut : ltb (length (a ++ [])) st.offset ≡ false
      not_cut = ground (arith, length-append a [])

      too_recent : leb (mtime + grace) now ≡ false
      too_recent = ground arith

      not_behind : ltb st.offset (length (a ++ [])) ≡ false
      not_behind = ground (arith, length-append a [])

  -- A look at a file that has grown by whole lines.
  read_session-Reads :
      (grace now mtime : ℕ) (a b : Str) (st : Session)
      → now < mtime + grace
      → IsWhole a
      → IsDated decode b
      → Reads decode a st
      → Reads decode
          (a ++ b)
          (read_session decode grace now (length (a ++ b), mtime) (some (a ++ b)) st)
  unfolding take_tail
  read_session-Reads grace now mtime a [] st recent whole dated h =
      subst (Reads decode (a ++ [])) (sym (untouched grace now mtime a st recent h.0))
        (subst (λ x. Reads decode x st) (sym (append-nil a)) h)
  read_session-Reads grace now mtime a (c ∷ b) st recent whole (inl none_new) h =
      absurd (cc none_new)
  read_session-Reads grace now mtime a (c ∷ b) st recent whole (inr dated) h =
      subst (Reads decode (a ++ c ∷ b))
        (sym (grown grace now mtime a (c ∷ b) st recent h.0 (omega arith)))
        (taken (parse_transcript_tail decode (c ∷ b)) (parse_transcript_tail decode (a ++ c ∷ b))
          dated (parse-append a (c ∷ b) whole))
    where
      taken :
          (t u : Tail)
          → t.dated ≡ true
          → u ≡ merge (parse_transcript_tail decode a) t
          → let x = record (take_tail t st) { offset = length (a ++ c ∷ b) } in
            (x.offset ≡ length (a ++ c ∷ b)) × (x.last_activity ≡ u.newest) × (x.cwd ≡ u.cwd)
      taken t u d e = rw d (
        refl,
        ap (λ x. later x t.newest) h.1 ∙ sym (ap (λ y. y.newest) e),
        ap (λ x. if is_nil t.cwd then x else t.cwd) h.2 ∙ sym (ap (λ y. y.cwd) e),
      )

-- Looks at a file that grows: the new piece, the modification time and the time of the look.
abbrev pub Look : Type 0
Look = Str × ℕ × ℕ

abbrev pub text_of : Str → List Look → Str
text_of a [] = a
text_of a ((b, mtime, now) ∷ looks) = text_of (a ++ b) looks

-- Each look comes within the grace of the last change, and finds whole lines; a piece has a date.
abbrev pub AreTimely : (Str → Line) → ℕ → Str → List Look → Type 0
AreTimely decode grace a [] = Unit
AreTimely decode grace a ((b, mtime, now) ∷ looks) =
    (now < mtime + grace)
    × IsWhole (a ++ b)
    × IsDated decode b
    × AreTimely decode grace (a ++ b) looks

unfoldable pub read_looks : (Str → Line) → ℕ → Str → List Look → Session → Session
read_looks decode grace a [] st = st
read_looks decode grace a ((b, mtime, now) ∷ looks) st =
    read_looks decode grace (a ++ b) looks
      (read_session decode grace now (length (a ++ b), mtime) (some (a ++ b)) st)

read_looks-Reads :
    (decode : Str → Line) (grace : ℕ) (a : Str) (looks : List Look) (st : Session)
    → decode [] ≡ none
    → IsWhole a
    → AreTimely decode grace a looks
    → Reads decode a st
    → Reads decode (text_of a looks) (read_looks decode grace a looks st)
unfolding read_looks
read_looks-Reads decode grace a [] st blank whole timely h = h
read_looks-Reads decode grace a ((b, mtime, now) ∷ looks) st blank whole timely h =
    read_looks-Reads decode grace (a ++ b) looks _ blank timely.1 timely.3
      (read_session-Reads decode blank grace now mtime a b st timely.0 whole timely.2 h)

-- A transcript read piece by piece, from where the last look ended, gives the date and the directory
-- that one read of it all gives: when each look finds whole lines within the grace of the last change,
-- and each new piece has a date.
pub read_looks-parse_transcript_tail :
    (decode : Str → Line) (grace : ℕ) (looks : List Look)
    → decode [] ≡ none
    → AreTimely decode grace [] looks
    → let st = read_looks decode grace [] looks new_session in
      let t = parse_transcript_tail decode (text_of [] looks) in
      (st.offset ≡ length (text_of [] looks)) × (st.last_activity ≡ t.newest) × (st.cwd ≡ t.cwd)
unfolding parse_transcript_tail split_lines
read_looks-parse_transcript_tail decode grace looks blank timely =
    read_looks-Reads decode grace [] looks new_session blank (inl refl) timely (
      refl,
      sym (ap (λ t. t.newest) (after_blank decode blank no_tail)),
      sym (ap (λ t. t.cwd) (after_blank decode blank no_tail)),
    )
