-- ===== src/Pipeline/Recorded.antt =====
-- Which records a run of the loop of `DeployRunner.run` (rodeo/engine/runner.py) can turn to done.
use rodeo_cli.Base.{
  ◌≡◌, sym, ◌∙◌, ℕ, String, Bool, true, ◌&&◌, ◌||◌, Option, none, List, ◌∷◌, ◌⊎◌, inl, inr,
  Bool-cases, ◌==◌, ==→≡, string_eq, option_eq, if◌then◌else◌, arith,
}
use rodeo_cli.Base.Lists.{In}
use rodeo_cli.Base.Dict.{Dict}
use rodeo_cli.Pipeline.State.{Files, is_phase_done, mark_phase_failed}
use rodeo_cli.Pipeline.Records.{is_phase_done-mark_phase_failed}
use rodeo_cli.Pipeline.Profile.{Profile, Stream}
use rodeo_cli.Pipeline.Engine.{Event, Engine, Plan, Options}
use rodeo_cli.Pipeline.Runner.{run_phases}
use rodeo_cli.Pipeline.Steps.{
  Ctx, work, Round, early, cached, held, cancelled, worked, broke, Rounds, end, go, halt,
  run_phases-Rounds,
}
use rodeo_cli.Pipeline.Rounds.{is_cached, is_phase_done-note_done}

module _ (engine : Engine) (table : Dict Stream) (profile : Profile) (plan : Plan)
    (options : Options) (q other : String) (asked : Option String) where
  abbrev Start : Type 0
  Start = Ctx engine table profile plan options

  -- The record that is asked for is one that a run may write.
  pub record IsOwn (ps : List String) : Type 0 where
    pub own_plan : other ≡ plan.name
    pub listed : In q ps
    pub keeps_records : is_cached engine table profile plan options q ≡ true
    pub key : (asked == none || profile.phase_key q == asked) ≡ true

  failed_before :
      (p text now : String) (fs : Files)
      → is_phase_done q other asked (mark_phase_failed p text plan.name now fs) ≡ true
      → is_phase_done q other asked fs ≡ true
  failed_before p text now fs h =
      let e = is_phase_done-mark_phase_failed p text plan.name now fs q other asked in
      ground (arith, e, h)

  done_before :
      (p : String) (ps : List String) (w : engine.World) (fs : Files)
      → (if is_cached engine table profile plan options p && (other == plan.name && q == p)
          then asked == none || profile.phase_key p == asked
          else is_phase_done q other asked fs)
        ≡ true
      → (is_phase_done q other asked fs ≡ true) ⊎ IsOwn (p ∷ ps)
  done_before p ps w fs h =
      elim (Bool-cases
        (is_cached engine table profile plan options p && (other == plan.name && q == p))) [
          | inr n ↦ inl (rw n at h)
          | inl y ↦
              let same = ==→≡ q p (ground (arith, y)) in
              let k : (asked == none || profile.phase_key p == asked) ≡ true = rw y at h in
              inr (record {
                own_plan = ==→≡ other plan.name (ground (arith, y));
                listed = inl same;
                keeps_records = rw same (ground (arith, y));
                key = rw same k;
              })
        ]

  Round-recorded :
      {start i : ℕ} {p : String} {c d : Start} {es : List Event} {b : Bool} (ps : List String)
      → Round engine table profile plan options start i p c es b d
      → is_phase_done q other asked d.files ≡ true
      → (is_phase_done q other asked c.files ≡ true) ⊎ IsOwn (p ∷ ps)
  Round-recorded ps (early l) h = inl h
  Round-recorded ps (cached f g) h = inl h
  Round-recorded ps (held g) h = inl h
  Round-recorded {p = p} ps (cancelled {c = c} due) h = inl (failed_before p _ _ c.files h)
  Round-recorded {p = p} ps (broke {c = c} due) h = inl (failed_before p _ _ c.files h)
  Round-recorded {start = start} {p = p} ps (worked {c = c} due z) h =
      let w = (work engine table profile plan options start p c).world in
      done_before p ps w c.files (
        sym (is_phase_done-note_done engine table profile plan options p w c.files q other asked)
        ∙ h)

  IsOwn-later : {p : String} {ps : List String} → IsOwn ps → IsOwn (p ∷ ps)
  IsOwn-later o = record {
    own_plan = o.own_plan;
    listed = inr o.listed;
    keeps_records = o.keeps_records;
    key = o.key;
  }

  Rounds-recorded :
      {start i : ℕ} {ps : List String} {c d : Start} {es : List Event}
      → Rounds engine table profile plan options start i ps c es d
      → is_phase_done q other asked d.files ≡ true
      → (is_phase_done q other asked c.files ≡ true) ⊎ IsOwn ps
  Rounds-recorded end h = inl h
  Rounds-recorded (halt {ps = ps} r) h = Round-recorded ps r h
  Rounds-recorded (go {ps = ps} r rest) h = elim (Rounds-recorded rest h) [
    | inl k ↦ Round-recorded ps r k
    | inr o ↦ inr (IsOwn-later o)
  ]

  -- A phase that is done after a run, for any key and in any plan's file, was done before it, or it
  -- is a listed phase of the run's own plan whose records are kept, under the key that it has now.
  pub run_phases-IsOwn :
      (start i : ℕ) (ps : List String) (c : Start)
      → is_phase_done q other asked
          (run_phases engine table profile plan options start i ps c).1.files
        ≡ true
      → (is_phase_done q other asked c.files ≡ true) ⊎ IsOwn ps
  run_phases-IsOwn start i ps c h =
      Rounds-recorded (run_phases-Rounds engine table profile plan options start i ps c) h
