-- ===== src/Herdr/Closed.antt =====
-- What a session file that is gone or broken costs.
use antitimely.Prelude.{
  ℕ, ◌≡◌, refl, ap, ◌∙◌, ◌⊎◌, inl, inr, Bool, true, false, not, ◌&&◌, Option, none, some, ◌==◌,
  arith, Bool-cases,
}
use antitimely.Prelude.Text.{Str}
use antitimely.Domain.Cwd.{is_nil}
use antitimely.Herdr.{
  View, Resolver, SessionFile, fail_closed, read_file, accept, reload, before_colon, space_for_pane,
  space_for_session, space, learn, spaces_of, same_time,
}

abbrev is_good : Option (Option SessionFile) → Bool
is_good (some (some f)) = true
is_good _ = false

-- The file cannot be found, or it is not the one of the last good load and cannot be read or decoded.
abbrev pub Fails : View → Resolver → Type 0
Fails v r =
    (v.stat ≡ none)
    ⊎ ((at : ℕ × ℕ) × (v.stat ≡ some at)
        × (is_good v.read ≡ false)
        × ((r.loaded && (not r.warned && (same_time r.mod_time at.0 && (at.1 == r.size)))) ≡ false))

read_file-bad :
    (at : ℕ × ℕ) (o : Option (Option SessionFile)) (r : Resolver)
    → is_good o ≡ false
    → read_file at o r ≡ fail_closed r
unfolding read_file
read_file-bad at none r h = refl
read_file-bad at (some none) r h = refl
read_file-bad at (some (some f)) r h = absurd (ground arith)

reload-Fails :
    (v : View) (r : Resolver) → is_nil r.path ≡ false → Fails v r → reload v r ≡ fail_closed r
unfolding reload
reload-Fails v r path (inl gone) = simp (path, gone) refl
reload-Fails v r path (inr (at, e, bad, fresh)) =
    simp (path, e) (rw fresh (read_file-bad at v.read r bad))

reload-good :
    (v : View) (r : Resolver) (at : ℕ × ℕ) (f : SessionFile)
    → is_nil r.path ≡ false
    → v.stat ≡ some at
    → v.read ≡ some (some f)
    → reload v (fail_closed r) ≡ accept at f (fail_closed r)
unfolding reload read_file fail_closed
reload-good v r at f path h k = simp (path, h, k) refl

pane-none :
    (v : View) (r : Resolver) (s : Str)
    → reload v r ≡ fail_closed r
    → (space_for_pane v s r).0 ≡ none
unfolding space_for_pane fail_closed
pane-none v r s e = elim (Bool-cases (is_nil (before_colon s))) [
  | inl t ↦ simp t refl
  | inr t ↦ simp (t, e) refl
]

session-none :
    (v : View) (r : Resolver) (s : Str)
    → reload v r ≡ fail_closed r
    → (space_for_session v s r).0 ≡ none
unfolding space_for_session fail_closed
session-none v r s e = elim (Bool-cases (is_nil s)) [
  | inl t ↦ simp t refl
  | inr t ↦ simp (t, e) refl
]

space-none :
    (v : View) (r : Resolver) (s : Str) → reload v r ≡ fail_closed r → (space v s r).0 ≡ none
unfolding space fail_closed
space-none v r s e = elim (Bool-cases (is_nil s)) [ inl t ↦ simp t refl | inr t ↦ simp (t, e) refl ]

accept-spaces :
    (at : ℕ × ℕ) (f : SessionFile) (r : Resolver)
    → (accept at f (fail_closed r)).spaces ≡ spaces_of f (λ i. none)
unfolding accept
accept-spaces at f r = refl

accept-sessions :
    (at : ℕ × ℕ) (f : SessionFile) (r : Resolver)
    → (accept at f (fail_closed r)).sessions ≡ learn f (λ u. none)
unfolding accept fail_closed
accept-sessions at f r = refl

-- On a file that fails, no pane, no session and no id resolves to a space. What was learned before is
-- dropped: once there is a good file again, spaces and sessions are those that this file names.
pub reload-fail_closed :
    (v v' : View) (r : Resolver) (pane uuid id : Str) (at : ℕ × ℕ) (f : SessionFile)
    → is_nil r.path ≡ false
    → Fails v r
    → v'.stat ≡ some at
    → v'.read ≡ some (some f)
    → let r' = reload v' (reload v r) in
      ((space_for_pane v pane r).0 ≡ none)
      × ((space_for_session v uuid r).0 ≡ none)
      × ((space v id r).0 ≡ none)
      × (r'.spaces ≡ spaces_of f (λ i. none))
      × (r'.sessions ≡ learn f (λ u. none))
reload-fail_closed v v' r pane uuid id at f path fails h k =
    let e = reload-Fails v r path fails in
    let e' = ap (reload v') e ∙ reload-good v' r at f path h k in
    (
      pane-none v r pane e,
      session-none v r uuid e,
      space-none v r id e,
      ap (λ x. x.spaces) e' ∙ accept-spaces at f r,
      ap (λ x. x.sessions) e' ∙ accept-sessions at f r,
    )
