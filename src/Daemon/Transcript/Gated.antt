-- ===== src/Daemon/Transcript/Gated.antt =====
-- Which sessions are reported.
use antitimely.Prelude.{
  arith, inl, inr, ℕ, ◌+◌, ◌<◌, ◌≡◌, refl, true, false, Option, none, some, List, [], ◌∷◌, leb,
  if◌then◌else◌, Bool-cases, Option-cases, All, All-mono, In, Bool, not, any, keep, sym, subst, ◌∙◌,
}
use antitimely.Prelude.Text.{Str, str_eq_iff}
use antitimely.Domain.Signal.{Signal}
use antitimely.Daemon.Import.{Line}
use antitimely.Daemon.Transcript.{
  Session, SessionEntry, Sessions, SpaceHost, TranscriptConfig, read_session, state_of, session_cwd,
  tracked, PathKey, same_path, put_state, prune, transcript_signal_of, transcript_space,
  emit_session, and_signal, collect_session, collect_sessions, collect_transcript_signals,
}

-- The signal is of this file, and the session `st` of the file was active within the grace, in a
-- directory or a workspace that some rule asks for.
abbrev pub IsFrom : TranscriptConfig → ℕ → SessionEntry → Session → Signal → Type 0
IsFrom cfg now e st sig =
    (now < st.last_activity + cfg.grace)
    × (tracked cfg sig.cwd sig.space_id ≡ true)
    × (sig ≡ transcript_signal_of (session_cwd e.dir st.cwd) e.session sig.space_id)

abbrev pub key : SessionEntry → PathKey
key e = (e.dir, e.session)

-- The signal is of a file of the list, with the session that is remembered under the file's path.
abbrev pub IsLive :
    TranscriptConfig → ℕ → List (PathKey × Session) → List SessionEntry → Signal → Type 0
IsLive cfg now states es sig =
    (e : SessionEntry) × In e es × IsFrom cfg now e (state_of (key e) states) sig

-- No path is listed twice.
abbrev pub Distinct : List SessionEntry → Type 0
Distinct [] = Unit
Distinct (e ∷ es) = All (λ x. same_path (key x) (key e) ≡ false) es × Distinct es

abbrev pub listed : Option (List SessionEntry) → List SessionEntry
listed none = []
listed (some es) = es

-- If there is a signal, it is of the file.
abbrev MayReport : TranscriptConfig → ℕ → SessionEntry → Session → Option Signal → Type 0
MayReport cfg now e st none = Unit
MayReport cfg now e st (some sig) = IsFrom cfg now e st sig

emit_session-MayReport :
    (cfg : TranscriptConfig) (host : SpaceHost) (now : ℕ) (e : SessionEntry) (st : Session)
    (panes : Str → Option Str)
    → MayReport cfg now e st (emit_session cfg host now e st panes).0
unfolding emit_session
emit_session-MayReport cfg host now e st panes =
    elim (Bool-cases (leb (st.last_activity + cfg.grace) now)) [
      | inl t ↦ rw t tt
      | inr t ↦ rw t (gate (transcript_space host e.session panes).0 (recent t))
    ]
  where
    recent : leb (st.last_activity + cfg.grace) now ≡ false → now < st.last_activity + cfg.grace
    recent t = ground arith

    gate :
        (space : Str)
        → now < st.last_activity + cfg.grace
        → MayReport cfg now e st (
            if tracked cfg (session_cwd e.dir st.cwd) space
            then some (transcript_signal_of (session_cwd e.dir st.cwd) e.session space)
            else none)
    gate space r = elim (Bool-cases (tracked cfg (session_cwd e.dir st.cwd) space)) [
      | inl u ↦ rw u (r, u, refl)
      | inr u ↦ rw u tt
    ]

same_path_refl : (k : PathKey) → same_path k k ≡ true
same_path_refl k = ground (arith, (str_eq_iff k.0 k.0).1 refl, (str_eq_iff k.1 k.1).1 refl)

same_path-eq : (j k : PathKey) → same_path j k ≡ true → j ≡ k
same_path-eq j k h = ground (arith, (str_eq_iff j.0 k.0).0, (str_eq_iff j.1 k.1).0)

state_of-put_state :
    (k : PathKey) (st : Session) (states : List (PathKey × Session))
    → state_of k (put_state k st states) ≡ st
unfolding state_of
state_of-put_state k st states = rw (same_path_refl k) refl

-- What is kept under a path does not depend on what is dropped under others.
state_of-keep :
    (f : PathKey → Bool) (k : PathKey) (states : List (PathKey × Session))
    → f k ≡ true
    → state_of k (keep (λ x. f x.0) states) ≡ state_of k states
unfolding state_of
state_of-keep f k [] h = refl
state_of-keep f k ((j, st) ∷ states) h = elim (Bool-cases (same_path k j)) [
  | inl same ↦ rw (subst (λ x. f x ≡ true) (same_path-eq k j same) h) (rw same refl)
  | inr other ↦ elim (Bool-cases (f j)) [
    | inl t ↦ rw t (rw other (state_of-keep f k states h))
    | inr t ↦ rw t (rw other (state_of-keep f k states h))
  ]
]

apart : (j k : PathKey) → same_path k j ≡ false → same_path j k ≡ false
apart j k h = elim (Bool-cases (same_path j k)) [
  | inl same ↦
      absurd
        (cc (subst (λ x. same_path x j ≡ false) (sym (same_path-eq j k same)) h, same_path_refl j))
  | inr other ↦ other
]

state_of-put_other :
    (j k : PathKey) (st : Session) (states : List (PathKey × Session))
    → same_path k j ≡ false
    → state_of k (put_state j st states) ≡ state_of k states
unfolding state_of
state_of-put_other j k st states h =
    rw h (state_of-keep (λ x. not (same_path j x)) k states (rw (apart j k h) refl))

any-In :
    (e : SessionEntry) (es : List SessionEntry)
    → In e es
    → any (λ x. same_path (key x) (key e)) es ≡ true
any-In e [] i = absurd i
any-In e (x ∷ es) (inl h) =
    rw (subst (λ y. same_path (key y) (key e) ≡ true) h (same_path_refl (key e))) refl
any-In e (x ∷ es) (inr i) = let later = any-In e es i in ground arith

-- The pruning keeps what is remembered of a file that is listed.
state_of-prune :
    (es : List SessionEntry) (m : Sessions) (e : SessionEntry)
    → In e es
    → state_of (key e) (prune es m).states ≡ state_of (key e) m.states
unfolding prune
state_of-prune es m e i =
    state_of-keep (λ k. any (λ x. same_path (key x) k) es) (key e) m.states (any-In e es i)

module _ (decode : Str → Line) (cfg : TranscriptConfig) (host : SpaceHost) (now : ℕ) where
  collect_session-MayReport :
      (e : SessionEntry) (m : Sessions)
      → let x = collect_session decode cfg host now e m in
        MayReport cfg now e (state_of (key e) x.1.states) x.0
  unfolding collect_session
  collect_session-MayReport e m = elim (Option-cases e.view.stat) [
    | inl s ↦ rw (s, collect_session) tt
    | inr (at, s) ↦
        let st = read_session decode cfg.grace now at e.view.read (state_of (key e) m.states) in
        rw (s, collect_session)
          (rw (state_of-put_state (key e) st m.states)
            (emit_session-MayReport cfg host now e st m.session_pane))
  ]

  collect_session-other :
      (k : PathKey) (e : SessionEntry) (m : Sessions)
      → same_path k (key e) ≡ false
      → state_of k (collect_session decode cfg host now e m).1.states ≡ state_of k m.states
  unfolding collect_session
  collect_session-other k e m h = elim (Option-cases e.view.stat) [
    | inl s ↦ rw (s, collect_session) refl
    | inr (at, s) ↦
        rw (s, collect_session)
          (state_of-put_other (key e) k
            (read_session decode cfg.grace now at e.view.read (state_of (key e) m.states)) m.states
            h)
  ]

  collect_sessions-other :
      (k : PathKey) (es : List SessionEntry) (m : Sessions)
      → All (λ x. same_path (key x) k ≡ false) es
      → state_of k (collect_sessions decode cfg host now es m).1.states ≡ state_of k m.states
  unfolding collect_sessions
  collect_sessions-other k [] m h = refl
  collect_sessions-other k (e ∷ es) m (h, hs) =
      collect_sessions-other k es (collect_session decode cfg host now e m).1 hs
      ∙ collect_session-other k e m (apart k (key e) h)

  and_signal-IsLive :
      (states : List (PathKey × Session)) (o : Option Signal) (e : SessionEntry)
      (es : List SessionEntry) (sigs : List Signal)
      → MayReport cfg now e (state_of (key e) states) o
      → All (IsLive cfg now states es) sigs
      → All (IsLive cfg now states (e ∷ es)) (and_signal o sigs)
  and_signal-IsLive states none e es sigs h k = All-mono _ _ sigs (λ s x. (x.0, inr x.1, x.2)) k
  and_signal-IsLive states (some sig) e es sigs h k =
      ((e, inl refl, h), All-mono _ _ sigs (λ s x. (x.0, inr x.1, x.2)) k)

  collect_sessions-IsLive :
      (es : List SessionEntry) (m : Sessions)
      → Distinct es
      → let x = collect_sessions decode cfg host now es m in All (IsLive cfg now x.1.states es) x.0
  unfolding collect_sessions
  collect_sessions-IsLive [] m d = tt
  collect_sessions-IsLive (e ∷ es) m (apart_from, d) =
      let first = collect_session decode cfg host now e m in
      and_signal-IsLive (collect_sessions decode cfg host now es first.1).1.states first.0 e es _
        (subst (λ st. MayReport cfg now e st first.0)
          (sym (collect_sessions-other (key e) es first.1 apart_from))
          (collect_session-MayReport e m))
        (collect_sessions-IsLive es first.1 d)

  prune-IsLive :
      (es : List SessionEntry) (m : Sessions) (sig : Signal)
      → IsLive cfg now m.states es sig
      → IsLive cfg now (prune es m).states es sig
  prune-IsLive es m sig (e, i, h) =
      (e, i, subst (λ st. IsFrom cfg now e st sig) (sym (state_of-prune es m e i)) h)

  -- Each transcript signal is of a file of the root, and the session that the tick leaves remembered
  -- for that file is active within the grace, and its directory is covered by a rule's pattern or the
  -- signal's workspace is named by a rule. The root lists no path twice.
  pub collect_transcript_signals-IsLive :
      (root : Option (List SessionEntry)) (m : Sessions)
      → Distinct (listed root)
      → let x = collect_transcript_signals decode cfg host now root m in
        All (IsLive cfg now x.1.states (listed root)) x.0
  unfolding collect_transcript_signals
  collect_transcript_signals-IsLive none m d = tt
  collect_transcript_signals-IsLive (some es) m d =
      let x = collect_sessions decode cfg host now es m in
      All-mono _ _ x.0 (prune-IsLive es x.1) (collect_sessions-IsLive es m d)
