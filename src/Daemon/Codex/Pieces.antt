-- ===== src/Daemon/Codex/Pieces.antt =====
-- Reading a rollout file in pieces that may end within a line.
use mathlib.Core.List.{append_assoc, append-nil}
use antitimely.Prelude.{
  arith, inl, inr, ℕ, ◌+◌, ◌<◌, ◌≡◌, refl, sym, ap, subst, ◌∙◌, false, Option, none, some, List, [],
  ◌∷◌, ◌++◌, ltb, leb, if◌then◌else◌, length, length-append, Bool-cases,
}
use antitimely.Prelude.Text.{Str}
use antitimely.Domain.Cwd.{is_nil}
use antitimely.Daemon.Transcript.{later, split_lines, drop}
use antitimely.Daemon.Transcript.Growing.{IsWhole, split_lines-append, drop-append}
use antitimely.Daemon.Codex.{
  CodexLine, CodexTail, no_codex_tail, scan_rollout_line, whole_lines, CodexSession,
  new_codex_session, take_codex_tail, scan_rollout, parse_codex_tail, consume, read_rollout,
}
use antitimely.Daemon.Codex.Lines.{
  whole_lines-IsWhole, whole_lines-append, split, merge, with_tail, NamesCommand, scan_line-merge,
  merge-none, none-merge, IsPlain, scan_line-IsPlain, IsQuiet, scan_line-IsQuiet,
}

module _ (decode : Str → Option CodexLine) (named : (l : Str) → NamesCommand (decode l))
    (blank : decode [] ≡ none) where
  scan-append :
      (ls ms : List Str) (x : Str × CodexTail)
      → scan_rollout decode (ls ++ ms) x ≡ scan_rollout decode ms (scan_rollout decode ls x)
  unfolding scan_rollout
  scan-append [] ms x = refl
  scan-append (l ∷ ls) ms x = scan-append ls ms (scan_rollout_line (decode l) x)

  scan-merge :
      (ls : List Str) (t : CodexTail) (x : Str × CodexTail)
      → scan_rollout decode ls (with_tail t x) ≡ with_tail t (scan_rollout decode ls x)
  unfolding scan_rollout
  scan-merge [] t x = refl
  scan-merge (l ∷ ls) t x =
      ap (scan_rollout decode ls) (scan_line-merge (decode l) t x (named l))
      ∙ scan-merge ls t (scan_rollout_line (decode l) x)

  scan-IsPlain :
      (ls : List Str) (x : Str × CodexTail) → IsPlain x → IsPlain (scan_rollout decode ls x)
  unfolding scan_rollout
  scan-IsPlain [] x h = h
  scan-IsPlain (l ∷ ls) x h = scan-IsPlain ls _ (scan_line-IsPlain (decode l) x h)

  after_blank : (x : Str × CodexTail) → scan_rollout decode ([] ∷ []) x ≡ x
  unfolding scan_rollout scan_rollout_line
  after_blank x = ap (λ l. scan_rollout_line l x) blank

  resumed :
      (ls : List Str) (x : Str × CodexTail)
      → scan_rollout decode ls x ≡ with_tail x.1 (scan_rollout decode ls (x.0, no_codex_tail))
  resumed ls (root, t) =
      ap (λ u. scan_rollout decode ls (root, u)) (sym (merge-none t))
      ∙ scan-merge ls t (root, no_codex_tail)

  abbrev all : Str → CodexTail
  all s = parse_codex_tail decode s []

  -- What follows whole lines is read as if it stood alone, from the root that they end with.
  parse-append :
      (a b : Str)
      → IsWhole a
      → all (a ++ b) ≡ merge (all a) (parse_codex_tail decode b (all a).session_cwd)
  unfolding parse_codex_tail split_lines
  parse-append a b (inl e) =
      subst (λ x. all (x ++ b) ≡ merge (all x) (parse_codex_tail decode b (all x).session_cwd))
        (sym e)
        (sym (none-merge (all b))
          ∙ ap (λ t. merge t (parse_codex_tail decode b t.session_cwd))
              (sym (ap (λ x. x.1) (after_blank ([], no_codex_tail)))))
  parse-append a b (inr (c, e)) =
      subst (λ x. all (x ++ b) ≡ merge (all x) (parse_codex_tail decode b (all x).session_cwd))
        (sym e)
        (ap (λ x. (scan_rollout decode (split_lines x) start).1) (append_assoc c (10 ∷ []) b)
          ∙ ap (λ ls. (scan_rollout decode ls start).1) (split_lines-append c b)
          ∙ ap (λ x. x.1)
              (scan-append (split_lines c) (split_lines b) start
                ∙ resumed (split_lines b) (scan_rollout decode (split_lines c) start))
          ∙ ap
              (λ r.
                merge (scan_rollout decode (split_lines c) start).1 (parse_codex_tail decode b r))
              (scan-IsPlain (split_lines c) start (refl, λ d. refl)).0
          ∙ ap (λ t. merge t (parse_codex_tail decode b t.session_cwd)) (sym (ap (λ x. x.1) alone)))
    where
      start : Str × CodexTail
      start = ([], no_codex_tail)

      alone :
          scan_rollout decode (split_lines (c ++ 10 ∷ [])) start
          ≡ scan_rollout decode (split_lines c) start
      alone =
          ap (λ ls. scan_rollout decode ls start) (split_lines-append c [])
          ∙ scan-append (split_lines c) ([] ∷ []) start
          ∙ after_blank (scan_rollout decode (split_lines c) start)

  -- What a tail says is taken over, with a date or without.
  abbrev Takes : CodexTail → CodexTail → CodexSession → Type 0
  Takes t u st =
      (st.last_activity ≡ (merge t u).newest)
      × (st.cwd ≡ (merge t u).session_cwd)
      × (st.command_cwd ≡ (merge t u).command_cwd)

  taken :
      (t u : CodexTail) (st : CodexSession)
      → (u.dated ≡ false → u ≡ no_codex_tail)
      → (st.last_activity ≡ t.newest) × (st.cwd ≡ t.session_cwd) × (st.command_cwd ≡ t.command_cwd)
      → Takes t u (take_codex_tail u st)
  unfolding take_codex_tail
  taken t u st quiet h = elim (Bool-cases u.dated) [
    | inl d ↦ rw d (
      ap (λ x. later x u.newest) h.0,
      ap (λ x. if is_nil u.session_cwd then x else u.session_cwd) h.1,
      ap (λ x. if is_nil u.command_cwd then x else u.command_cwd) h.2,
    )
    | inr d ↦
        rw d (
          subst (λ x. Takes t x st) (sym (quiet d))
            (subst (λ x. Alike x st) (sym (merge-none t)) h))
  ]
    where
      Alike : CodexTail → CodexSession → Type 0
      Alike x st =
          (st.last_activity ≡ x.newest)
          × (st.cwd ≡ x.session_cwd)
          × (st.command_cwd ≡ x.command_cwd)

  -- The session is what the whole lines of the file say, all of which have been read.
  abbrev pub Reads : Str → CodexSession → Type 0
  Reads s st =
      (st.offset ≡ length (whole_lines s))
      × (st.last_activity ≡ (all (whole_lines s)).newest)
      × (st.cwd ≡ (all (whole_lines s)).session_cwd)
      × (st.command_cwd ≡ (all (whole_lines s)).command_cwd)

  scan-IsQuiet :
      (ls : List Str) (x : Str × CodexTail) → IsQuiet x → IsQuiet (scan_rollout decode ls x)
  unfolding scan_rollout
  scan-IsQuiet [] x h = h
  scan-IsQuiet (l ∷ ls) x h = scan-IsQuiet ls _ (scan_line-IsQuiet (decode l) x h)

  consumed :
      (w d : Str) (st : CodexSession)
      → IsWhole w
      → (st.offset ≡ length w)
        × (st.last_activity ≡ (all w).newest)
        × (st.cwd ≡ (all w).session_cwd)
        × (st.command_cwd ≡ (all w).command_cwd)
      → let x = consume decode d st in
        (x.offset ≡ length (w ++ d))
        × (x.last_activity ≡ (all (w ++ d)).newest)
        × (x.cwd ≡ (all (w ++ d)).session_cwd)
        × (x.command_cwd ≡ (all (w ++ d)).command_cwd)
  unfolding parse_codex_tail
  consumed w [] st whole h = rw (append-nil w) h
  consumed w (c ∷ d) st whole h =
      let k =
        taken (all w) (parse_codex_tail decode (c ∷ d) st.cwd) st (undated (c ∷ d) st.cwd)
          (h.1, h.2, h.3) in
      let e =
        parse-append w (c ∷ d) whole
        ∙ ap (λ r. merge (all w) (parse_codex_tail decode (c ∷ d) r)) (sym h.2) in
      (
        ground (arith, length-append w (c ∷ d), h.0),
        k.0 ∙ sym (ap (λ t. t.newest) e),
        k.1 ∙ sym (ap (λ t. t.session_cwd) e),
        k.2 ∙ sym (ap (λ t. t.command_cwd) e),
      )
    where
      undated :
          (b r : Str)
          → (parse_codex_tail decode b r).dated ≡ false
          → parse_codex_tail decode b r ≡ no_codex_tail
      undated b r = scan-IsQuiet (split_lines b) (r, no_codex_tail) (λ d. refl)

  looked :
      (grace now mtime : ℕ) (w r b : Str) (st : CodexSession)
      → now < mtime + grace
      → st.offset ≡ length w
      → read_rollout decode grace now (length ((w ++ r) ++ b), mtime) (some ((w ++ r) ++ b)) st
        ≡ consume decode (whole_lines (r ++ b)) st
  unfolding read_rollout
  looked grace now mtime w r b st recent at =
      elim (Bool-cases (ltb st.offset (length ((w ++ r) ++ b)))) [
        | inl t ↦ rw (not_cut, too_recent, t, rest) refl
        | inr t ↦
            rw (not_cut, too_recent, t)
              (sym
                (ap (λ x. consume decode (whole_lines x) st) (no_more (r ++ b) (nothing_left t))))
      ]
    where
      not_cut : ltb (length ((w ++ r) ++ b)) st.offset ≡ false
      not_cut = ground (arith, length-append (w ++ r) b, length-append w r)

      too_recent : leb (mtime + grace) now ≡ false
      too_recent = ground arith

      rest : drop st.offset ((w ++ r) ++ b) ≡ r ++ b
      rest = rw at (ap (drop (length w)) (append_assoc w r b) ∙ drop-append w (r ++ b))

      nothing_left : ltb st.offset (length ((w ++ r) ++ b)) ≡ false → length (r ++ b) ≡ 0
      nothing_left t =
          ground (arith, t, length-append (w ++ r) b, length-append w r, length-append r b)

      no_more : (x : Str) → length x ≡ 0 → x ≡ []
      no_more [] h = refl
      no_more (c ∷ x) h = absurd (ground arith)

  -- A look at a file that has grown, wherever the piece ends.
  read_rollout-Reads :
      (grace now mtime : ℕ) (s b : Str) (st : CodexSession)
      → now < mtime + grace
      → Reads s st
      → Reads (s ++ b) (read_rollout decode grace now (length (s ++ b), mtime) (some (s ++ b)) st)
  read_rollout-Reads grace now mtime s b st recent h =
      let (r, e) = split s in
      subst
        (λ x.
          Reads (x ++ b)
            (read_rollout decode grace now (length (x ++ b), mtime) (some (x ++ b)) st))
        (sym e)
        (subst (Reads ((whole_lines s ++ r) ++ b))
          (sym (looked grace now mtime (whole_lines s) r b st recent h.0))
          (grown (whole_lines s) r (whole_lines-IsWhole s) h))
    where
      grown :
          (w r : Str)
          → IsWhole w
          → (st.offset ≡ length w)
            × (st.last_activity ≡ (all w).newest)
            × (st.cwd ≡ (all w).session_cwd)
            × (st.command_cwd ≡ (all w).command_cwd)
          → Reads ((w ++ r) ++ b) (consume decode (whole_lines (r ++ b)) st)
      grown w r whole k =
          rw (ap whole_lines (append_assoc w r b) ∙ whole_lines-append w (r ++ b) whole)
            (consumed w (whole_lines (r ++ b)) st whole k)

-- Looks at a file that grows: the new piece, the modification time and the time of the look.
abbrev pub AreRecent : ℕ → List (Str × ℕ × ℕ) → Type 0
AreRecent grace [] = Unit
AreRecent grace ((b, mtime, now) ∷ looks) = (now < mtime + grace) × AreRecent grace looks

abbrev pub text_of : Str → List (Str × ℕ × ℕ) → Str
text_of a [] = a
text_of a ((b, mtime, now) ∷ looks) = text_of (a ++ b) looks

unfoldable pub read_rollouts :
    (Str → Option CodexLine) → ℕ → Str → List (Str × ℕ × ℕ) → CodexSession → CodexSession
read_rollouts decode grace a [] st = st
read_rollouts decode grace a ((b, mtime, now) ∷ looks) st =
    read_rollouts decode grace (a ++ b) looks
      (read_rollout decode grace now (length (a ++ b), mtime) (some (a ++ b)) st)

module _ (decode : Str → Option CodexLine) (named : (l : Str) → NamesCommand (decode l))
    (blank : decode [] ≡ none) where
  read_rollouts-Reads :
      (grace : ℕ) (a : Str) (looks : List (Str × ℕ × ℕ)) (st : CodexSession)
      → AreRecent grace looks
      → Reads decode named blank a st
      → Reads decode named blank (text_of a looks) (read_rollouts decode grace a looks st)
  unfolding read_rollouts
  read_rollouts-Reads grace a [] st recent h = h
  read_rollouts-Reads grace a ((b, mtime, now) ∷ looks) st recent h =
      read_rollouts-Reads grace (a ++ b) looks _ recent.1
        (read_rollout-Reads decode named blank grace now mtime a b st recent.0 h)

  -- A rollout file read in pieces, which may end within a line, gives what one read of all its whole lines
  -- gives, when each look comes within the grace of the last change and no line names an empty command
  -- directory.
  pub read_rollouts-parse_codex_tail :
      (grace : ℕ) (looks : List (Str × ℕ × ℕ))
      → AreRecent grace looks
      → let st = read_rollouts decode grace [] looks new_codex_session in
        let lines = whole_lines (text_of [] looks) in
        let t = parse_codex_tail decode lines [] in
        (st.offset ≡ length lines)
        × (st.last_activity ≡ t.newest)
        × (st.cwd ≡ t.session_cwd)
        × (st.command_cwd ≡ t.command_cwd)
  unfolding whole_lines parse_codex_tail split_lines
  read_rollouts-parse_codex_tail grace looks recent =
      read_rollouts-Reads grace [] looks new_codex_session recent (
        refl,
        sym (ap (λ x. x.1.newest) (after_blank decode named blank ([], no_codex_tail))),
        sym (ap (λ x. x.1.session_cwd) (after_blank decode named blank ([], no_codex_tail))),
        sym (ap (λ x. x.1.command_cwd) (after_blank decode named blank ([], no_codex_tail))),
      )
