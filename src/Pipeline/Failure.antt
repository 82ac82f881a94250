-- ===== src/Pipeline/Failure.antt =====
-- A run of the loop of `DeployRunner.run` (rodeo/engine/runner.py) in which a phase fails, and the
-- run after it.
use rodeo_cli.Base.{
  ◌≡◌, refl, sym, ◌∙◌, ap, ℕ, ℤ, pos, String, ◌<>◌, Bool, true, false, ◌||◌, Option, List, [], ◌∷◌,
  ◌++◌, inl, inr, Bool-cases, ◌==◌, ==_refl, string_eq, ltb, arith,
}
use rodeo_cli.Base.Lists.{any, any-append, In}
use rodeo_cli.Base.Dict.{Dict}
use rodeo_cli.Pipeline.State.{Files, is_phase_done, mark_phase_failed}
use rodeo_cli.Pipeline.Records.{is_phase_done-mark_phase_failed}
use rodeo_cli.Pipeline.Profile.{Profile, Stream}
use rodeo_cli.Pipeline.Engine.{Event, phase_started, phase_failed, Engine, Plan, Options}
use rodeo_cli.Pipeline.Runner.{logged, code_of}
use rodeo_cli.Pipeline.Steps.{
  starts, fails, Ctx, is_done, is_held, work, Round, early, cached, held, cancelled, worked, broke,
  Rounds, end, go, halt, run_phases-Rounds,
}
use rodeo_cli.Pipeline.Rounds.{
  any-logged, is_cached, Round-keeps, Round-done, Round-starts, Round-fails,
}
use rodeo_cli.Pipeline.Resume.{false_ne_true, deploy, run_phases-IsStarted}

append_assoc : {A : Type 0} (xs ys zs : List A) → (xs ++ ys) ++ zs ≡ xs ++ (ys ++ zs)
append_assoc [] ys zs = refl
append_assoc (x ∷ xs) ys zs = ap (λ l. x ∷ l) (append_assoc xs ys zs)

module _ (engine : Engine) (table : Dict Stream) (profile : Profile) (plan : Plan)
    (options : Options) where
  abbrev Start : Type 0
  Start = Ctx engine table profile plan options

  -- How a round ends that ends the run.
  record IsEnd (p : String) (c d : Start) (es : List Event) : Type 0 where
    sofar : List Event
    code : ℤ
    message : String
    events : es ≡ sofar ++ phase_failed p code message ∷ []
    only : any fails sofar ≡ false
    recorded : (asked : Option String) → is_phase_done p plan.name asked d.files ≡ false
    kept :
        (q : String)
        → (q == p) ≡ false
        → is_done engine table profile plan options q c.files ≡ true
        → is_done engine table profile plan options q d.files ≡ true

  failed_recorded :
      (p text now : String) (fs : Files) (asked : Option String)
      → is_phase_done p plan.name asked (mark_phase_failed p text plan.name now fs) ≡ false
  failed_recorded p text now fs asked =
      is_phase_done-mark_phase_failed p text plan.name now fs p plan.name asked
      ∙ ground (arith, ==_refl p, ==_refl plan.name)

  failed_kept :
      (p text now : String) (fs : Files) (q : String)
      → (q == p) ≡ false
      → is_done engine table profile plan options q fs ≡ true
      → is_done engine table profile plan options q (mark_phase_failed p text plan.name now fs)
        ≡ true
  failed_kept p text now fs q n h =
      is_phase_done-mark_phase_failed p text plan.name now fs q plan.name (profile.phase_key q)
      ∙ ground arith

  Round-IsEnd :
      {start i : ℕ} {p : String} {c d : Start} {es : List Event} {b : Bool}
      → Round engine table profile plan options start i p c es b d
      → b ≡ false
      → IsEnd p c d es
  Round-IsEnd (early l) e = cc
  Round-IsEnd (cached f g) e = cc
  Round-IsEnd (held g) e = cc
  Round-IsEnd (worked due z) e = cc
  Round-IsEnd {p = p} (cancelled {c = c} due) e = record {
    sofar = [];
    code = pos 130;
    message = "cancelled";
    events = refl;
    only = refl;
    recorded = failed_recorded p "cancelled" (engine.now c.world) c.files;
    kept = failed_kept p "cancelled" (engine.now c.world) c.files;
  }
  Round-IsEnd {start = start} {p = p} (broke {c = c} due) e =
      let x = work engine table profile plan options start p c in
      record {
        sofar = phase_started p ∷ logged engine table profile plan options p x;
        code = code_of engine table profile plan options x;
        message = p <> " failed";
        events = refl;
        only = any-logged engine table profile plan options fails p x (λ y. refl);
        recorded = failed_recorded p _ (engine.now x.world) c.files;
        kept = failed_kept p _ (engine.now x.world) c.files;
      }

  -- What a run leaves that a failure ended: the phase that failed is the last that the events name,
  -- no record says that it is done, no phase after it was started, and those before it are done,
  -- but for ones that are held back or whose records are not kept.
  pub record IsHalted (c d : Start) (ps : List String) (es : List Event) : Type 0 where
    pub before : List String
    pub failed : String
    pub after : List String
    pub sofar : List Event
    pub code : ℤ
    pub message : String
    pub phases : ps ≡ before ++ failed ∷ after
    pub events : es ≡ sofar ++ phase_failed failed code message ∷ []
    pub only : any fails sofar ≡ false
    pub recorded : (asked : Option String) → is_phase_done failed plan.name asked d.files ≡ false
    pub kept :
        (q : String)
        → (q == failed) ≡ false
        → is_done engine table profile plan options q c.files ≡ true
        → is_done engine table profile plan options q d.files ≡ true
    pub started : (q : String) → any (starts q) es ≡ true → In q (before ++ failed ∷ [])
    pub settled :
        (q : String)
        → In q before
        → (q == failed) ≡ false
        → is_held engine table profile plan options q ≡ false
        → is_cached engine table profile plan options q ≡ true
        → is_done engine table profile plan options q d.files ≡ true

  Rounds-halt :
      {start i : ℕ} {ps : List String} {c d : Start} {es : List Event}
      → Rounds engine table profile plan options start i ps c es d
      → any fails es ≡ true
      → ltb i start ≡ false
      → IsHalted c d ps es
  Rounds-halt end f l = cc
  Rounds-halt {start = start} (go {i = i} {p = p} {ps = ps} {es = es} {fs = fs} r rest) f l =
      let none_yet = Round-fails engine table profile plan options start i p r in
      let h = Rounds-halt rest (ground (arith, any-append fails es fs)) (ground arith) in
      record {
        before = p ∷ h.before;
        failed = h.failed;
        after = h.after;
        sofar = es ++ h.sofar;
        code = h.code;
        message = h.message;
        phases = ap (λ l. p ∷ l) h.phases;
        events = ap (λ l. es ++ l) h.events ∙ sym (append_assoc es h.sofar _);
        only = any-append fails es h.sofar ∙ ground (arith, h.only);
        recorded = h.recorded;
        kept = λ q n k.
            h.kept q n (Round-keeps engine table profile plan options start i p q r refl k);
        started = λ q s. elim (Bool-cases (any (starts q) es)) [
          | inl now ↦ inl (Round-starts engine table profile plan options start i p q r now).0
          | inr later ↦ inr (
              h.started q (
                sym (ap (λ b. b || any (starts q) fs) later)
                ∙ sym (any-append (starts q) es fs)
                ∙ s))
        ];
        settled = λ q m n g k. elim m [
          | inl e ↦
              let now =
                Round-done engine table profile plan options start i p r refl l (rw (sym e) g)
                  (rw (sym e) k) in
              h.kept q n (rw e now)
          | inr m ↦ h.settled q m n g k
        ];
      }
  Rounds-halt {start = start} (halt {i = i} {p = p} {ps = ps} r) f l =
      let e = Round-IsEnd r refl in
      record {
        before = [];
        failed = p;
        after = ps;
        sofar = e.sofar;
        code = e.code;
        message = e.message;
        phases = refl;
        events = e.events;
        only = e.only;
        recorded = e.recorded;
        kept = e.kept;
        started = λ q s. inl (Round-starts engine table profile plan options start i p q r s).0;
        settled = λ q m n g k. absurd m;
      }

  -- If an event of a run from the first phase says that a phase failed, the run stopped there, as
  -- `IsHalted` tells.
  pub run_phases-IsHalted :
      (c : Start)
      → any fails (deploy engine table profile plan options 0 c).0 ≡ true
      → IsHalted c
          (deploy engine table profile plan options 0 c).1
          profile.phases
          (deploy engine table profile plan options 0 c).0
  run_phases-IsHalted c f =
      Rounds-halt (run_phases-Rounds engine table profile plan options 0 0 profile.phases c) f refl

  -- The run after one that a failure ended, whatever became of the world since, if it is not forced
  -- and goes by the same options: it starts none of the other phases before the one that failed, but for
  -- those whose records are not kept.
  pub run_phases_resume :
      (c again : Start) (start : ℕ)
      → any fails (deploy engine table profile plan options 0 c).0 ≡ true
      → again.files ≡ (deploy engine table profile plan options 0 c).1.files
      → options.force ≡ false
      → (h : IsHalted c
          (deploy engine table profile plan options 0 c).1
          profile.phases
          (deploy engine table profile plan options 0 c).0)
        × ((q : String)
            → In q h.before
            → (q == h.failed) ≡ false
            → is_cached engine table profile plan options q ≡ true
            → any (starts q) (deploy engine table profile plan options start again).0 ≡ false)
  run_phases_resume c again start f same free =
      let h = run_phases-IsHalted c f in
      (
        h,
        λ q m n k.
            elim (Bool-cases
              (any (starts q) (deploy engine table profile plan options start again).0)) [
                | inr quiet ↦ quiet
                | inl s ↦
                    let t =
                      run_phases-IsStarted engine table profile plan options start 0 profile.phases
                        again q s in
                    let d = h.settled q m n t.not_held k in
                    elim t.pending [
                      | inl forced ↦ absurd (false_ne_true forced free)
                      | inr u ↦ absurd (false_ne_true d (rw (sym same) u))
                    ]
              ],
      )
