-- ===== src/Pipeline/Steps.antt =====
-- The loop of `DeployRunner.run` (rodeo/engine/runner.py) as a relation: the ways in which a round
-- can go, and the runs that are made of rounds.
use rodeo_cli.Base.{
  ◌≡◌, ℕ, suc, pos, String, ◌<>◌, Bool, true, false, not, ◌&&◌, List, [], ◌∷◌, ◌++◌, ◌⊎◌, inl, inr,
  Bool-cases, ◌==◌, string_eq, contains, ltb, if◌then◌else◌, arith,
}
use rodeo_cli.Base.Dict.{Dict}
use rodeo_cli.Pipeline.State.{Files, is_phase_done, mark_phase_failed}
use rodeo_cli.Pipeline.Profile.{Profile, Stream}
use rodeo_cli.Pipeline.Engine.{
  Event, phase_started, phase_skipped, phase_done, phase_failed, log_line, log, deploy_complete,
  Execution, Engine, Plan, Options, Context,
}
use rodeo_cli.Pipeline.Runner.{
  is_zero, guard_line, run_phase, guard_active, logged, code_of, note_done, conclude, attempt, step,
  run_phases,
}

-- The event says that the phase starts.
abbrev pub starts : String → Event → Bool
starts q (phase_started p) = q == p
starts q _ = false

-- The event says that a phase failed.
abbrev pub fails : Event → Bool
fails (phase_failed p rc message) = true
fails _ = false

module _ (engine : Engine) (table : Dict Stream) (profile : Profile) (plan : Plan)
    (options : Options) where
  abbrev pub Ctx : Type 0
  Ctx = Context engine.World

  -- The phase is done for the key that it has now.
  abbrev pub is_done : String → Files → Bool
  is_done q fs = is_phase_done q plan.name (profile.phase_key q) fs

  abbrev pub is_held : String → Bool
  is_held q = guard_active engine table profile plan options && contains profile.guarded_phases q

  module _ (start : ℕ) where
    -- Nothing keeps the phase from its work but a cancelled run.
    pub record IsDue (i : ℕ) (p : String) (c : Ctx) : Type 0 where
      pub reached : ltb i start ≡ false
      pub pending : (options.force ≡ true) ⊎ (is_done p c.files ≡ false)
      pub not_held : is_held p ≡ false

    abbrev pub work : String → Ctx → Execution engine.World
    work p c = run_phase engine table profile plan p c.world c.last_rc

    -- A round with phase p at place i: the events, whether the loop goes on, and what is left.
    pub data Round (i : ℕ) (p : String) : Ctx → List Event → Bool → Ctx → Type 0 where
      early :
          {c : Ctx} → ltb i start ≡ true → Round i p c (phase_skipped p "before_start" ∷ []) true c
      cached :
          {c : Ctx}
          → options.force ≡ false
          → is_done p c.files ≡ true
          → Round i p c (phase_skipped p "done" ∷ []) true c
      held :
          {c : Ctx}
          → is_held p ≡ true
          → Round i p c (log (log_line (guard_line p)) ∷ phase_skipped p "instruqt" ∷ []) true c
      cancelled :
          {c : Ctx}
          → IsDue i p c
          → Round i p c (phase_failed p (pos 130) "cancelled" ∷ []) false (record c {
            files = mark_phase_failed p "cancelled" plan.name (engine.now c.world) c.files;
          })
      worked :
          {c : Ctx}
          → IsDue i p c
          → is_zero (code_of engine table profile plan options (work p c)) ≡ true
          → Round i p c
              (phase_started p
                ∷ (logged engine table profile plan options p (work p c) ++ phase_done p ∷ []))
              true
              (record {
                files = note_done engine table profile plan options p (work p c).world c.files;
                last_rc = code_of engine table profile plan options (work p c);
                world = (work p c).world;
              })
      broke :
          {c : Ctx}
          → IsDue i p c
          → Round i p c
              (phase_started p
                ∷ (logged engine table profile plan options p (work p c)
                    ++ phase_failed p
                        (code_of engine table profile plan options (work p c))
                        (p <> " failed")
                      ∷ []))
              false
              (record {
                files =
                    mark_phase_failed p
                      (p
                        <> (" exited "
                            <> engine.str (code_of engine table profile plan options (work p c))))
                      plan.name
                      (engine.now (work p c).world)
                      c.files;
                last_rc = code_of engine table profile plan options (work p c);
                world = (work p c).world;
              })

    pub data Rounds : ℕ → List String → Ctx → List Event → Ctx → Type 0 where
      end : {i : ℕ} {c : Ctx} → Rounds i [] c (deploy_complete ∷ []) c
      go :
          {i : ℕ} {p : String} {ps : List String} {c d e : Ctx} {es fs : List Event}
          → Round i p c es true d
          → Rounds (suc i) ps d fs e
          → Rounds i (p ∷ ps) c (es ++ fs) e
      halt :
          {i : ℕ} {p : String} {ps : List String} {c d : Ctx} {es : List Event}
          → Round i p c es false d
          → Rounds i (p ∷ ps) c es d

    -- What a round is said to do.
    abbrev IsRound : ℕ → String → Ctx → List Event × Bool × Ctx → Type 0
    IsRound i p c r = Round i p c r.0 r.1 r.2

    conclude-Round :
        (i : ℕ) (p : String) (c : Ctx)
        → IsDue i p c
        → IsRound i p c (conclude engine table profile plan options p (work p c) c.files)
    conclude-Round i p c due =
        elim (Bool-cases (is_zero (code_of engine table profile plan options (work p c)))) [
          | inl z ↦ unfold conclude in rw z (worked due z)
          | inr z ↦ unfold conclude in rw z (broke due)
        ]

    attempt-Round :
        (i : ℕ) (p : String) (c : Ctx)
        → IsDue i p c
        → IsRound i p c (attempt engine table profile plan options p c)
    attempt-Round i p c due = elim (Bool-cases (engine.is_stopped c.world)) [
      | inl s ↦ unfold attempt in rw s (cancelled due)
      | inr s ↦ unfold attempt in rw s (conclude-Round i p c due)
    ]

    pub step-Round :
        (i : ℕ) (p : String) (c : Ctx)
        → IsRound i p c (step engine table profile plan options start i p c)
    step-Round i p c = elim (Bool-cases (ltb i start)) [
      | inl b ↦ unfold step in rw b (early b)
      | inr b ↦ elim (Bool-cases (not options.force && is_done p c.files)) [
        | inl d ↦ unfold step in rw (b, d) (cached (ground (arith, d)) (ground (arith, d)))
        | inr d ↦ elim (Bool-cases (is_held p)) [
          | inl h ↦ unfold step in rw (b, d, h) (held h)
          | inr h ↦
              unfold step in
              rw (b, d, h)
                (attempt-Round i p c
                  (record { reached = b; pending = ground (arith, d); not_held = h }))
        ]
      ]
    ]

    abbrev joined : List Event × Bool × Ctx → List Event × Ctx → List Event × Ctx
    joined r t = if r.1 then (r.0 ++ t.0, t.1) else (r.0, r.2)

    -- A round, and the rest of the run if there is one.
    prepend :
        (i : ℕ) (p : String) (ps : List String) (c : Ctx) (r : List Event × Bool × Ctx)
        (t : List Event × Ctx)
        → IsRound i p c r
        → Rounds (suc i) ps r.2 t.0 t.1
        → Rounds i (p ∷ ps) c (joined r t).0 (joined r t).1
    prepend i p ps c (es, true, d) t r rest = go r rest
    prepend i p ps c (es, false, d) t r rest = halt r

    -- Each run of the loop is one of the relation.
    pub run_phases-Rounds :
        (i : ℕ) (ps : List String) (c : Ctx)
        → Rounds i ps c
            (run_phases engine table profile plan options start i ps c).0
            (run_phases engine table profile plan options start i ps c).1
    unfolding run_phases
    run_phases-Rounds i [] c = end
    run_phases-Rounds i (p ∷ ps) c =
        prepend i p ps c (step engine table profile plan options start i p c)
          (run_phases engine table profile plan options start (suc i) ps
            (step engine table profile plan options start i p c).2)
          (step-Round i p c)
          (run_phases-Rounds (suc i) ps (step engine table profile plan options start i p c).2)
