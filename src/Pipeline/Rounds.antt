-- ===== src/Pipeline/Rounds.antt =====
-- What one round of the loop of `DeployRunner.run` (rodeo/engine/runner.py) does to the records of
-- the phases, and what its events say.
use rodeo_cli.Base.{
  ◌≡◌, refl, sym, ◌∙◌, ℕ, String, Bool, true, false, not, ◌&&◌, ◌||◌, Option, none, List, [], ◌∷◌,
  ◌++◌, map, inl, inr, Bool-cases, Option-cases, ◌==◌, ==_refl, ==→≡, string_eq, option_eq,
  contains, ltb, if◌then◌else◌, arith,
}
use rodeo_cli.Base.Lists.{any, any-append}
use rodeo_cli.Base.Dict.{Dict}
use rodeo_cli.Pipeline.State.{Files, is_phase_done}
use rodeo_cli.Pipeline.Records.{is_phase_done-mark_phase_done}
use rodeo_cli.Pipeline.Profile.{Profile, Stream}
use rodeo_cli.Pipeline.Engine.{Event, phase_started, Log, log, Execution, Engine, Plan, Options}
use rodeo_cli.Pipeline.Runner.{logged, note_done}
use rodeo_cli.Pipeline.Steps.{
  starts, fails, Ctx, is_done, is_held, IsDue, work, Round, early, cached, held, cancelled, worked,
  broke,
}

any-map-log :
    (f : Event → Bool) (l : List Log) → ((x : Log) → f (log x) ≡ false) → any f (map log l) ≡ false
any-map-log f [] h = refl
any-map-log f (x ∷ l) h = ground (arith, any-map-log f l h, h x)

or_false : (b : Bool) → (b || false) ≡ b
or_false true = refl
or_false false = refl

module _ (engine : Engine) (table : Dict Stream) (profile : Profile) (plan : Plan)
    (options : Options) where
  -- What a phase yields while it works starts no phase and fails none.
  pub any-logged :
      (f : Event → Bool) (p : String) (x : Execution engine.World)
      → ((y : Log) → f (log y) ≡ false)
      → any f (logged engine table profile plan options p x) ≡ false
  any-logged f p x h = elim (Option-cases x.raised) [
    | inl e ↦ rw e (any-map-log f x.events h)
    | inr (text, e) ↦ rw (e, any-append, any-map-log f x.events h, h) refl
  ]

  pub any-events :
      (f : Event → Bool) (p : String) (x : Execution engine.World) (e : Event)
      → ((y : Log) → f (log y) ≡ false)
      → any f (phase_started p ∷ (logged engine table profile plan options p x ++ e ∷ []))
        ≡ (f (phase_started p) || f e)
  any-events f p x e h = ground (
    arith,
    any-append f (logged engine table profile plan options p x) (e ∷ []),
    any-logged f p x h,
  )

  -- Whether the records of the phase are kept.
  abbrev pub is_cached : String → Bool
  is_cached q = not (contains profile.no_cache_phases q)

  pub is_phase_done-note_done :
      (p : String) (w : engine.World) (fs : Files) (q other : String) (asked : Option String)
      → is_phase_done q other asked (note_done engine table profile plan options p w fs) ≡ (
          if is_cached p && (other == plan.name && q == p)
          then asked == none || profile.phase_key p == asked
          else is_phase_done q other asked fs)
  is_phase_done-note_done p w fs q other asked =
      elim (Bool-cases (contains profile.no_cache_phases p)) [
        | inl n ↦ unfold note_done in rw n refl
        | inr n ↦
            unfold note_done in
            rw n (
              is_phase_done-mark_phase_done p plan.name (engine.now w) (profile.phase_key p) fs q
                other asked)
      ]

  pub is_done-note_done :
      (p : String) (w : engine.World) (fs : Files) (q : String)
      → is_done engine table profile plan options q
          (note_done engine table profile plan options p w fs)
        ≡ (is_cached p && q == p || is_done engine table profile plan options q fs)
  is_done-note_done p w fs q =
      rw (is_phase_done-note_done p w fs q plan.name (profile.phase_key q), ==_refl plan.name)
        (ground (arith, ==_refl (profile.phase_key q)))

  module _ (start i : ℕ) (p : String) where
    pub Round-keeps :
        {c d : Ctx engine table profile plan options} {es : List Event} {b : Bool} (q : String)
        → Round engine table profile plan options start i p c es b d
        → b ≡ true
        → is_done engine table profile plan options q c.files ≡ true
        → is_done engine table profile plan options q d.files ≡ true
    Round-keeps q (early l) e h = h
    Round-keeps q (cached f r) e h = h
    Round-keeps q (held g) e h = h
    Round-keeps q (worked {c = c} due z) e h =
        rw (is_done-note_done p _ c.files q, h) (ground arith)
    Round-keeps q (cancelled due) e h = cc
    Round-keeps q (broke due) e h = cc

    pub Round-done :
        {c d : Ctx engine table profile plan options} {es : List Event} {b : Bool}
        → Round engine table profile plan options start i p c es b d
        → b ≡ true
        → ltb i start ≡ false
        → is_held engine table profile plan options p ≡ false
        → is_cached p ≡ true
        → is_done engine table profile plan options p d.files ≡ true
    Round-done (early l) e r h k = ground arith
    Round-done (cached f g) e r h k = g
    Round-done (held g) e r h k = ground arith
    Round-done (worked {c = c} due z) e r h k =
        rw
          (
            is_done-note_done p (work engine table profile plan options start p c).world c.files p,
            k,
            ==_refl p,
          )
          refl
    Round-done (cancelled due) e r h k = cc
    Round-done (broke due) e r h k = cc

    -- Events that start a phase start this one, which was due.
    pub Round-starts :
        {c d : Ctx engine table profile plan options} {es : List Event} {b : Bool} (q : String)
        → Round engine table profile plan options start i p c es b d
        → any (starts q) es ≡ true
        → (q ≡ p) × IsDue engine table profile plan options start i p c
    Round-starts q (early l) h = cc
    Round-starts q (cached f g) h = cc
    Round-starts q (held g) h = cc
    Round-starts q (cancelled due) h = cc
    Round-starts q (worked {c = c} due z) h = (
      ==→≡ q p (
          sym (or_false _)
          ∙ sym (
              any-events (starts q) p (work engine table profile plan options start p c) _
                (λ y. refl))
          ∙ h),
      due,
    )
    Round-starts q (broke {c = c} due) h = (
      ==→≡ q p (
          sym (or_false _)
          ∙ sym (
              any-events (starts q) p (work engine table profile plan options start p c) _
                (λ y. refl))
          ∙ h),
      due,
    )

    -- A round fails just if the run ends with it.
    pub Round-fails :
        {c d : Ctx engine table profile plan options} {es : List Event} {b : Bool}
        → Round engine table profile plan options start i p c es b d
        → any fails es ≡ not b
    Round-fails (early l) = refl
    Round-fails (cached f g) = refl
    Round-fails (held g) = refl
    Round-fails (cancelled due) = refl
    Round-fails (worked {c = c} due z) =
        any-events fails p (work engine table profile plan options start p c) _ (λ y. refl)
    Round-fails (broke {c = c} due) =
        any-events fails p (work engine table profile plan options start p c) _ (λ y. refl)
