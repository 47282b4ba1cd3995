-- ===== src/Daemon/Codex/Lines.antt =====
-- The lines of a rollout file that have come to their end, and two tails read one after the other.
use mathlib.Core.List.{append_assoc}
use antitimely.Prelude.{
  arith, inl, inr, ℕ, ◌≡◌, refl, sym, ap, subst, ◌∙◌, true, false, ◌||◌, Option, none, some, [],
  ◌∷◌, ◌++◌, ◌==◌, if◌then◌else◌, Bool-cases, ==_iff,
}
use antitimely.Prelude.Text.{Str, str_eq}
use antitimely.Domain.Cwd.{is_nil}
use antitimely.Daemon.Transcript.{later}
use antitimely.Daemon.Transcript.Growing.{IsWhole, later_assoc}
use antitimely.Daemon.Codex.{
  CodexLine, CodexTail, no_codex_tail, date_line, name_root, name_command, scan_rollout_line,
  whole_lines,
}

ends_open : (a s : Str) → is_nil (a ++ 10 ∷ s) ≡ false
ends_open [] s = refl
ends_open (c ∷ a) s = refl

nil_of : (s : Str) → is_nil s ≡ true → s ≡ []
nil_of [] h = refl
nil_of (c ∷ s) h = absurd (ground arith)

pub whole_lines-IsWhole : (s : Str) → IsWhole (whole_lines s)
unfolding whole_lines
whole_lines-IsWhole [] = inl refl
whole_lines-IsWhole (c ∷ s) = go (whole_lines-IsWhole s)
  where
    go : IsWhole (whole_lines s) → IsWhole (whole_lines (c ∷ s))
    go (inl e) = elim (Bool-cases (c == 10)) [
      | inl t ↦ rw e (rw t (inr ([], refl)))
      | inr t ↦ rw e (rw t (inl refl))
    ]
    go (inr (a, e)) = rw e (rw (ends_open a []) (inr (c ∷ a, refl)))

-- Whole lines stay when more comes.
kept_lines : (a s : Str) → whole_lines (a ++ 10 ∷ s) ≡ a ++ 10 ∷ whole_lines s
unfolding whole_lines
kept_lines [] s = elim (Bool-cases (is_nil (whole_lines s))) [
  | inl t ↦ rw t (ap (λ l. 10 ∷ l) (sym (nil_of (whole_lines s) t)))
  | inr t ↦ rw t refl
]
kept_lines (c ∷ a) s = rw (kept_lines a s, ends_open a (whole_lines s)) refl

pub whole_lines-append : (a s : Str) → IsWhole a → whole_lines (a ++ s) ≡ a ++ whole_lines s
whole_lines-append a s (inl e) = rw e refl
whole_lines-append a s (inr (b, e)) =
    subst (λ x. whole_lines (x ++ s) ≡ x ++ whole_lines s) (sym e)
      (ap whole_lines (append_assoc b (10 ∷ []) s)
        ∙ kept_lines b s
        ∙ sym (append_assoc b (10 ∷ []) (whole_lines s)))

-- The lines that are whole, and a part that is none.
pub split : (s : Str) → (r : Str) × (s ≡ whole_lines s ++ r)
unfolding whole_lines
split [] = ([], refl)
split (c ∷ s) = elim (Bool-cases (is_nil (whole_lines s))) [
  | inl n ↦ elim (Bool-cases (c == 10)) [
    | inl t ↦ rw n (rw t (s, ap (λ x. x ∷ s) ((==_iff c 10).0 t)))
    | inr t ↦ rw n (rw t (c ∷ s, refl))
  ]
  | inr n ↦ rw n (let (r, e) = split s in (r, ap (λ l. c ∷ l) e))
]

-- The second tail read after the first.
abbrev pub merge : CodexTail → CodexTail → CodexTail
merge t u = record {
  session_cwd = if is_nil u.session_cwd then t.session_cwd else u.session_cwd;
  command_cwd = if is_nil u.command_cwd then t.command_cwd else u.command_cwd;
  newest = later t.newest u.newest;
  dated = t.dated || u.dated;
}

abbrev pub with_tail : CodexTail → Str × CodexTail → Str × CodexTail
with_tail t (root, u) = (root, merge t u)

-- A command names a directory.
abbrev pub NamesCommand : Option CodexLine → Type 0
NamesCommand none = Unit
NamesCommand (some l) = (c : Str) → l.item_cwd ≡ some c → is_nil c ≡ false

name_command-merge :
    (o : Option Str) (t : CodexTail) (x : Str × CodexTail)
    → ((c : Str) → o ≡ some c → is_nil c ≡ false)
    → name_command o (with_tail t x) ≡ with_tail t (name_command o x)
name_command-merge none t x h = refl
name_command-merge (some c) t (root, u) h = elim (Bool-cases (str_eq c root)) [
  | inl e ↦ rw e refl
  | inr e ↦ rw e (rw (h c refl) refl)
]

name_root-merge :
    (cwd : Str) (t : CodexTail) (x : Str × CodexTail)
    → name_root cwd (with_tail t x) ≡ with_tail t (name_root cwd x)
name_root-merge cwd t (root, u) = elim (Bool-cases (is_nil cwd)) [
  | inl e ↦ rw e refl
  | inr e ↦ rw e (rw e refl)
]

pub scan_line-merge :
    (o : Option CodexLine) (t : CodexTail) (x : Str × CodexTail)
    → NamesCommand o
    → scan_rollout_line o (with_tail t x) ≡ with_tail t (scan_rollout_line o x)
unfolding scan_rollout_line
scan_line-merge none t x h = refl
scan_line-merge (some l) t (root, u) h =
    ap (λ y. name_command l.item_cwd (name_root l.session_cwd (root, y))) (dated l.date u)
    ∙ ap (name_command l.item_cwd) (name_root-merge l.session_cwd t (root, date_line l.date u))
    ∙ name_command-merge l.item_cwd t (name_root l.session_cwd (root, date_line l.date u)) h
  where
    dated : (n : ℕ) (u : CodexTail) → date_line n (merge t u) ≡ merge t (date_line n u)
    dated n u = ground (arith, later_assoc t.newest u.newest n)

pub merge-none : (t : CodexTail) → merge t no_codex_tail ≡ t
merge-none t = ground arith

pub none-merge : (u : CodexTail) → merge no_codex_tail u ≡ u
none-merge u = simp (unnamed u.session_cwd, unnamed u.command_cwd, later_zero u.newest) refl
  where
    unnamed : (c : Str) → (if is_nil c then [] else c) ≡ c
    unnamed [] = refl
    unnamed (x ∷ c) = refl

    later_zero : (n : ℕ) → later 0 n ≡ n
    later_zero n = ground arith

-- The root is the last that was named; without a date nothing was.
abbrev pub IsPlain : Str × CodexTail → Type 0
IsPlain x = (x.0 ≡ x.1.session_cwd) × (x.1.dated ≡ false → x.1 ≡ no_codex_tail)

pub scan_line-IsPlain :
    (o : Option CodexLine) (x : Str × CodexTail) → IsPlain x → IsPlain (scan_rollout_line o x)
unfolding scan_rollout_line
scan_line-IsPlain none x h = h
scan_line-IsPlain (some l) (root, t) h =
    commanded l.item_cwd (name_root l.session_cwd (root, date_line l.date t)) (rooted l.session_cwd)
  where
    rooted :
        (c : Str)
        → let y = name_root c (root, date_line l.date t) in
          (y.0 ≡ y.1.session_cwd) × (y.1.dated ≡ true)
    rooted c = elim (Bool-cases (is_nil c)) [ inl e ↦ rw e (h.0, refl) | inr e ↦ rw e (refl, refl) ]

    commanded :
        (o : Option Str) (y : Str × CodexTail)
        → (y.0 ≡ y.1.session_cwd) × (y.1.dated ≡ true)
        → IsPlain (name_command o y)
    commanded none y k = (k.0, λ e. absurd (cc (e, k.1)))
    commanded (some c) (r, u) k = elim (Bool-cases (str_eq c r)) [
      | inl e ↦ rw e (k.0, λ d. absurd (cc (d, k.1)))
      | inr e ↦ rw e (k.0, λ d. absurd (cc (d, k.1)))
    ]

abbrev pub IsQuiet : Str × CodexTail → Type 0
IsQuiet x = x.1.dated ≡ false → x.1 ≡ no_codex_tail

pub scan_line-IsQuiet :
    (o : Option CodexLine) (x : Str × CodexTail) → IsQuiet x → IsQuiet (scan_rollout_line o x)
unfolding scan_rollout_line
scan_line-IsQuiet none x h = h
scan_line-IsQuiet (some l) (root, t) h = λ e. absurd (
    cc (
      e,
      commanded l.item_cwd (name_root l.session_cwd (root, date_line l.date t))
          (rooted l.session_cwd),
    ))
  where
    rooted : (c : Str) → (name_root c (root, date_line l.date t)).1.dated ≡ true
    rooted c = elim (Bool-cases (is_nil c)) [ inl e ↦ rw e refl | inr e ↦ rw e refl ]

    commanded :
        (o : Option Str) (y : Str × CodexTail)
        → y.1.dated ≡ true
        → (name_command o y).1.dated ≡ true
    commanded none y k = k
    commanded (some c) (r, u) k = elim (Bool-cases (str_eq c r)) [ inl e ↦ rw e k | inr e ↦ rw e k ]
