-- ===== src/Rpc/Tagging/Atomic.antt =====
-- `TagSignature` as one step, and the ticks that it leaves alone.
use antitimely.Prelude.{
  arith, inl, inr, ℕ, ◌≡◌, refl, sym, ap, subst, ◌∙◌, ◌⊎◌, Bool, true, false, ◌&&◌, ◌||◌, none,
  some, List, [], ◌∷◌, ◌++◌, map, ◌==◌, if◌then◌else◌, any, Bool-cases, In,
}
use antitimely.Prelude.Text.{Str, str_eq}
use antitimely.Domain.Cwd.{is_nil}
use antitimely.Domain.Rules.{asks}
use antitimely.Retro.{Sqlite, retag_filter, selected, retag_tick, cwd_clause}
use antitimely.Store.Tables.{Observation, Tick}
use antitimely.Store.Admin.{Database, get_observation, waits}
use antitimely.Rpc.Exec.{Reply, err, ok, Service, proceed, ◌>>=◌}
use antitimely.Rpc.Exec.Stable.{is_ok}
use antitimely.Rpc.{RuleArgs, sweep_of, project_for, tag_with, tag_signature}
use antitimely.Rpc.Tagging.{
  SameWork, Names, project_for-Names, Swept, Outcome, project_for-Same, tag_with-Ends,
  tag_with-Swept,
}

module _ (sql : Sqlite) (o : ℕ) (name : Str) (create : Bool) (a : RuleArgs) (now : ℕ)
    (s : Service) where
  -- Whichever statements fail, `TagSignature` with a rule leaves rules and ticks as they were, or it
  -- has added the rule, under a fresh id and for the project of the given name, and swept the ticks with
  -- it, by the space of the tagged observation; when it returns without an error, it has. It may have
  -- and still report an error, where only the reload of the cache fails.
  pub tag_signature-Outcome :
      let x = tag_signature sql o name create (some a) now s in
      Outcome sql o name a s.db x.1.db × (is_ok x.0 ≡ true → Swept sql o name a s.db x.1.db)
  unfolding tag_signature ◌>>=◌
  tag_signature-Outcome =
      go (project_for name create now s).0 (project_for name create now s).1
        ((project_for-Same s.db name create now).at s
          (record { rules = refl; ticks = refl; observations = refl }))
        (project_for-Names name create now s)
    where
      go :
          (r : Reply ℕ) (t : Service)
          → SameWork s.db t.db
          → Names name (r, t)
          → let x = proceed r (λ p. tag_with sql (some a) p o) t in
            Outcome sql o name a s.db x.1.db × (is_ok x.0 ≡ true → Swept sql o name a s.db x.1.db)
      go (err e) t h named = (inl (h.rules, h.ticks), λ k. absurd (ground arith))
      go (ok p) t h named =
          let at = named p refl in
          (tag_with-Ends sql o name a s.db p t h at, tag_with-Swept sql o name a s.db p t h at)

-- Some observation of the id is in the space.
abbrev pub is_in : Str → ℕ → Observation → Bool
is_in space i x = (x.id == i) && str_eq x.space_id space

asked :
    (space : Str) (f : Str → Bool)
    → is_nil space ≡ false
    → asks (if is_nil space then none else some space) f ≡ true
    → f space ≡ true
asked [] f n h = absurd (ground arith)
asked (c ∷ space) f n h = h

fourth : (a b c d e : Bool) → (a && b && c && d && e) ≡ true → d ≡ true
fourth a b c d e h = ground arith

same_space :
    (sql : Sqlite) (p : ℕ) (obs : Observation) (a : RuleArgs) (x : Observation)
    → is_nil obs.space_id ≡ false
    → retag_filter sql (sweep_of p obs a) x ≡ true
    → str_eq x.space_id obs.space_id ≡ true
unfolding retag_filter
same_space sql p obs a x n h =
    let q = sweep_of p obs a in
    asked obs.space_id (λ v. str_eq x.space_id v) n
      (fourth (asks q.bundle_id (λ v. str_eq x.bundle_id v))
        (asks q.window_title (λ v. sql.like (b'%' ∷ v ++ b'%' ∷ []) x.window_title))
        (asks q.binary_name (λ v. str_eq x.binary_name v)) _
        (asks q.cwd (λ v. cwd_clause sql v x.cwd)) h)

elsewhere :
    (sql : Sqlite) (p : ℕ) (obs : Observation) (a : RuleArgs) (os : List Observation) (i : ℕ)
    → is_nil obs.space_id ≡ false
    → any (is_in obs.space_id i) os ≡ false
    → selected sql (sweep_of p obs a) os i ≡ false
unfolding selected
elsewhere sql p obs a [] i n h = refl
elsewhere sql p obs a (x ∷ os) i n h = elim (Bool-cases (retag_filter sql (sweep_of p obs a) x)) [
  | inl t ↦ ground (
    arith,
    h,
    t,
    same_space sql p obs a x n t,
    elsewhere sql p obs a os i n
        (second (is_in obs.space_id i x) (any (is_in obs.space_id i) os) h),
  )
  | inr t ↦ ground (
    arith,
    t,
    elsewhere sql p obs a os i n
        (second (is_in obs.space_id i x) (any (is_in obs.space_id i) os) h),
  )
]
  where
    second : (a b : Bool) → (a || b) ≡ false → b ≡ false
    second a b h = ground arith

-- The tick is assigned, or the observation has a space and the tick is in another.
abbrev pub IsForeign : Observation → List Observation → Tick → Type 0
IsForeign obs os t =
    (waits t ≡ false)
    ⊎ ((is_nil obs.space_id ≡ false) × (any (is_in obs.space_id t.observation_id) os ≡ false))

left_alone :
    (sql : Sqlite) (p : ℕ) (obs : Observation) (a : RuleArgs) (os : List Observation) (t : Tick)
    → IsForeign obs os t
    → retag_tick sql (sweep_of p obs a) os t ≡ t
unfolding retag_tick
left_alone sql p obs a os t (inl h) = ground (arith, h)
left_alone sql p obs a os t (inr h) =
    ground (arith, elsewhere sql p obs a os t.observation_id h.0 h.1)

In-map : (f : Tick → Tick) (t : Tick) (ts : List Tick) → f t ≡ t → In t ts → In t (map f ts)
In-map f t [] e h = h
In-map f t (u ∷ ts) e (inl h) = inl (sym e ∙ ap f h)
In-map f t (u ∷ ts) e (inr h) = inr (In-map f t ts e h)

-- `TagSignature` with a rule leaves each tick that is assigned, and, when the tagged observation has a
-- space, each tick of another space.
pub tag_signature-In :
    (sql : Sqlite) (o : ℕ) (name : Str) (create : Bool) (a : RuleArgs) (now : ℕ) (s : Service)
    (obs : Observation) (t : Tick)
    → get_observation o s.db ≡ some obs
    → IsForeign obs s.db.observations t
    → In t s.db.ticks
    → In t (tag_signature sql o name create (some a) now s).1.db.ticks
tag_signature-In sql o name create a now s obs t e h i =
    go (tag_signature-Outcome sql o name create a now s).0
  where
    same : (x y : Observation) → some x ≡ some y → x ≡ y
    same x y e = cc e

    go : {db : Database} → Outcome sql o name a s.db db → In t db.ticks
    go (inl (rules, ticks)) = subst (In t) (sym ticks) i
    go (inr k) = subst (In t) (sym k.ticks) (
        In-map _ t s.db.ticks
          (left_alone sql k.project k.obs a s.db.observations t
            (subst (λ x. IsForeign x s.db.observations t) (same obs k.obs (sym e ∙ k.tagged)) h))
          i)
