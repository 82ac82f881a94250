-- ===== src/Pipeline/Starting.antt =====
-- Which phases a run of the loop of `DeployRunner.run` (rodeo/engine/runner.py) must start.
use rodeo_cli.Base.{
  ◌≡◌, refl, sym, ◌∙◌, ℕ, zero, suc, ◌+◌, ◌≤◌, String, Bool, true, false, List, ◌⊎◌, inl, inr,
  Bool-cases, ◌==◌, ==_refl, string_eq, ltb, arith,
}
use rodeo_cli.Base.Lists.{any, any-append, In, drop}
use rodeo_cli.Base.Dict.{Dict}
use rodeo_cli.Pipeline.State.{Files}
use rodeo_cli.Pipeline.Profile.{Profile, Stream}
use rodeo_cli.Pipeline.Engine.{Event, Engine, Plan, Options, phase_done}
use rodeo_cli.Pipeline.Runner.{run_phases}
use rodeo_cli.Pipeline.Steps.{
  starts, fails, Ctx, is_done, is_held, work, Round, early, cached, held, cancelled, worked, broke,
  Rounds, end, go, halt, run_phases-Rounds,
}
use rodeo_cli.Pipeline.Rounds.{is_done-note_done, any-events, Round-fails}
use rodeo_cli.Pipeline.Resume.{false_ne_true}

module _ (engine : Engine) (table : Dict Stream) (profile : Profile) (plan : Plan)
    (options : Options) (start : ℕ) where
  abbrev Start : Type 0
  Start = Ctx engine table profile plan options

  -- Nothing that is recorded lets a run skip the phase.
  abbrev pub IsPending : String → Files → Type 0
  IsPending q fs = (options.force ≡ true) ⊎ (is_done engine table profile plan options q fs ≡ false)

  pending_done :
      (q : String) (fs : Files)
      → IsPending q fs
      → options.force ≡ false
      → is_done engine table profile plan options q fs ≡ true
      → ⊥
  pending_done q fs (inl f) g d = false_ne_true f g
  pending_done q fs (inr n) g d = false_ne_true d n

  module _ {i : ℕ} {p : String} where
    Round-must :
        {c d : Start} {es : List Event} {b : Bool}
        → Round engine table profile plan options start i p c es b d
        → b ≡ true
        → ltb i start ≡ false
        → IsPending p c.files
        → is_held engine table profile plan options p ≡ false
        → any (starts p) es ≡ true
    Round-must (early l) e r n h = absurd (false_ne_true l r)
    Round-must (cached {c = c} f g) e r n h = absurd (pending_done p c.files n f g)
    Round-must (held g) e r n h = absurd (false_ne_true g h)
    Round-must (cancelled due) e r n h = cc
    Round-must (broke due) e r n h = cc
    Round-must (worked {c = c} due z) e r n h =
        any-events engine table profile plan options (starts p) p
          (work engine table profile plan options start p c) (phase_done p) (λ y. refl)
        ∙ ground (arith, ==_refl p)

    -- A phase that is pending is so after a round with another, or is started by this one.
    Round-IsPending :
        {c d : Start} {es : List Event} {b : Bool} (q : String)
        → Round engine table profile plan options start i p c es b d
        → b ≡ true
        → IsPending q c.files
        → IsPending q d.files ⊎ (any (starts q) es ≡ true)
    Round-IsPending q (early l) e n = inl n
    Round-IsPending q (cached f g) e n = inl n
    Round-IsPending q (held g) e n = inl n
    Round-IsPending q (cancelled due) e n = cc
    Round-IsPending q (broke due) e n = cc
    Round-IsPending q (worked due z) e (inl f) = inl (inl f)
    Round-IsPending q (worked {c = c} due z) e (inr n) = elim (Bool-cases (q == p)) [
      | inl same ↦ inr (
          any-events engine table profile plan options (starts q) p
            (work engine table profile plan options start p c) (phase_done p) (λ y. refl)
          ∙ ground (arith, same))
      | inr differ ↦ inl (
          inr (
            is_done-note_done engine table profile plan options p _ c.files q
            ∙ ground (arith, differ, n)))
    ]

  Rounds-must :
      {i : ℕ} {ps : List String} {c d : Start} {es : List Event} (m : ℕ) (q : String)
      → Rounds engine table profile plan options start i ps c es d
      → start ≤ i + m
      → any fails es ≡ false
      → In q (drop m ps)
      → IsPending q c.files
      → is_held engine table profile plan options q ≡ false
      → any (starts q) es ≡ true
  Rounds-must zero q end l f k n h = absurd k
  Rounds-must (suc m) q end l f k n h = absurd k
  Rounds-must m q (halt {i = i} {p = p} r) l f k n h =
      absurd (false_ne_true (Round-fails engine table profile plan options start i p r) f)
  Rounds-must zero q (go {p = p} {c = c} {es = es} {fs = fs} r rest) l f (inl e) n h =
      let mine : IsPending p c.files = rw (sym e) n in
      let free : is_held engine table profile plan options p ≡ false = rw (sym e) h in
      let now : any (starts q) es ≡ true = rw e (Round-must r refl (ground arith) mine free) in
      any-append (starts q) es fs ∙ ground (arith, now)
  Rounds-must zero q (go {es = es} {fs = fs} r rest) l f (inr k) n h =
      elim (Round-IsPending q r refl n) [
        | inr now ↦ any-append (starts q) es fs ∙ ground (arith, now)
        | inl n' ↦
            let later =
              Rounds-must zero q rest (omega arith) (ground (arith, any-append fails es fs)) k n'
                h in
            any-append (starts q) es fs ∙ ground (arith, later)
      ]
  Rounds-must (suc m) q (go {es = es} {fs = fs} r rest) l f k n h =
      elim (Round-IsPending q r refl n) [
        | inr now ↦ any-append (starts q) es fs ∙ ground (arith, now)
        | inl n' ↦
            let later =
              Rounds-must m q rest (omega arith) (ground (arith, any-append fails es fs)) k n' h in
            any-append (starts q) es fs ∙ ground (arith, later)
      ]

  -- A run from a place on in which nothing fails starts each phase from there on that is not
  -- recorded as done for the key that it has now (each at all, if the run is forced), but for those
  -- that the image guard holds back.
  pub run_phases_must :
      (phases : List String) (c : Start) (q : String)
      → any fails (run_phases engine table profile plan options start 0 phases c).0 ≡ false
      → In q (drop start phases)
      → IsPending q c.files
      → is_held engine table profile plan options q ≡ false
      → any (starts q) (run_phases engine table profile plan options start 0 phases c).0 ≡ true
  run_phases_must phases c q f k n h =
      Rounds-must start q (run_phases-Rounds engine table profile plan options start 0 phases c)
        (omega arith) f k n h
