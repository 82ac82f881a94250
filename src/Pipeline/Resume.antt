-- ===== src/Pipeline/Resume.antt =====
-- Whole runs of the loop of `DeployRunner.run` (rodeo/engine/runner.py): what a run that fails leaves,
-- where the next one resumes, and what a run that succeeds need not do again.
use rodeo_cli.Base.{
  ◌≡◌, refl, sym, ℕ, String, Bool, true, false, List, ◌∷◌, ◌⊎◌, inl, inr, Bool-cases, string_eq,
  option_eq, ltb, arith,
}
use rodeo_cli.Base.Lists.{any, any-append, In}
use rodeo_cli.Base.Dict.{Dict}
use rodeo_cli.Pipeline.State.{Files}
use rodeo_cli.Pipeline.Profile.{Profile, Stream}
use rodeo_cli.Pipeline.Engine.{Event, Engine, Plan, Options}
use rodeo_cli.Pipeline.Runner.{run_phases}
use rodeo_cli.Pipeline.Steps.{
  starts, fails, Ctx, is_done, is_held, IsDue, Rounds, end, go, halt, run_phases-Rounds,
}
use rodeo_cli.Pipeline.Rounds.{is_cached, Round-keeps, Round-done, Round-starts, Round-fails}

pub false_ne_true : {b : Bool} → b ≡ true → b ≡ false → ⊥
false_ne_true t f = cc

module _ (engine : Engine) (table : Dict Stream) (profile : Profile) (plan : Plan)
    (options : Options) (start : ℕ) where
  abbrev Start : Type 0
  Start = Ctx engine table profile plan options

  abbrev Run : ℕ → List String → Start → List Event → Start → Type 0
  Run = Rounds engine table profile plan options start

  abbrev done : String → Files → Bool
  done = is_done engine table profile plan options

  Rounds-keeps :
      {i : ℕ} {ps : List String} {c d : Start} {es : List Event} (q : String)
      → Run i ps c es d
      → any fails es ≡ false
      → done q c.files ≡ true
      → done q d.files ≡ true
  Rounds-keeps q end f h = h
  Rounds-keeps q (go {i = i} {p = p} {es = es} {fs = fs} r rest) f h =
      let k = Round-keeps engine table profile plan options start i p q r refl h in
      Rounds-keeps q rest (ground (arith, any-append fails es fs)) k
  Rounds-keeps q (halt {i = i} {p = p} r) f h =
      absurd (false_ne_true (Round-fails engine table profile plan options start i p r) f)

  Rounds-done :
      {i : ℕ} {ps : List String} {c d : Start} {es : List Event} (q : String)
      → Run i ps c es d
      → any fails es ≡ false
      → ltb i start ≡ false
      → In q ps
      → is_held engine table profile plan options q ≡ false
      → is_cached engine table profile plan options q ≡ true
      → done q d.files ≡ true
  Rounds-done q end f l m h k = absurd m
  Rounds-done q (go {i = i} {p = p} {es = es} {fs = fs} r rest) f l (inl e) h k =
      let now =
        Round-done engine table profile plan options start i p r refl l (rw (sym e) h)
          (rw (sym e) k) in
      Rounds-keeps q rest (ground (arith, any-append fails es fs)) (rw e now)
  Rounds-done q (go {i = i} {p = p} {es = es} {fs = fs} r rest) f l (inr m) h k =
      Rounds-done q rest (ground (arith, any-append fails es fs)) (ground arith) m h k
  Rounds-done q (halt {i = i} {p = p} r) f l m h k =
      absurd (false_ne_true (Round-fails engine table profile plan options start i p r) f)

  -- What a phase is that a run starts.
  pub record IsStarted (c : Start) (ps : List String) (q : String) : Type 0 where
    pub listed : In q ps
    pub pending : (options.force ≡ true) ⊎ (done q c.files ≡ false)
    pub not_held : is_held engine table profile plan options q ≡ false

  IsStarted-due :
      {i : ℕ} {c : Start} (p q : String) (ps : List String)
      → (q ≡ p) × IsDue engine table profile plan options start i p c
      → IsStarted c (p ∷ ps) q
  IsStarted-due p q ps (e, due) = record {
    listed = inl e;
    pending = rw e due.pending;
    not_held = rw e due.not_held;
  }

  pub Rounds-starts :
      {i : ℕ} {ps : List String} {c d : Start} {es : List Event} (q : String)
      → Run i ps c es d
      → any (starts q) es ≡ true
      → IsStarted c ps q
  Rounds-starts q end s = cc
  Rounds-starts q (go {i = i} {p = p} {ps = ps} {c = c} {es = es} {fs = fs} r rest) s =
      elim (Bool-cases (any (starts q) es)) [
        | inl now ↦
            IsStarted-due p q ps (Round-starts engine table profile plan options start i p q r now)
        | inr later ↦
            let t = Rounds-starts q rest (ground (arith, any-append (starts q) es fs)) in
            record {
              listed = inr t.listed;
              pending = elim (Bool-cases (done q c.files)) [
                | inl d ↦ elim t.pending [
                  | inl f ↦ inl f
                  | inr n ↦ absurd (
                      false_ne_true
                        (Round-keeps engine table profile plan options start i p q r refl d) n)
                ]
                | inr n ↦ inr n
              ];
              not_held = t.not_held;
            }
      ]
  Rounds-starts q (halt {i = i} {p = p} {ps = ps} r) s =
      IsStarted-due p q ps (Round-starts engine table profile plan options start i p q r s)

  -- A run starts a phase only if it is listed, is not recorded as done for the key that it has now,
  -- unless the run is forced, and is not one that the image guard holds back.
  pub run_phases-IsStarted :
      (i : ℕ) (ps : List String) (c : Start) (q : String)
      → any (starts q) (run_phases engine table profile plan options start i ps c).0 ≡ true
      → IsStarted c ps q
  run_phases-IsStarted i ps c q h =
      Rounds-starts q (run_phases-Rounds engine table profile plan options start i ps c) h

module _ (engine : Engine) (table : Dict Stream) (profile : Profile) (plan : Plan)
    (options : Options) where
  -- The run of all phases from a place on.
  abbrev pub deploy :
      ℕ → Ctx engine table profile plan options → List Event × Ctx engine table profile plan options
  deploy start c = run_phases engine table profile plan options start 0 profile.phases c

  -- A run from the first phase in which nothing fails leaves every phase done for the key that it
  -- has now, but for those whose records are not kept and those that the image guard holds back.
  pub run_phases-is_done :
      (c : Ctx engine table profile plan options) (q : String)
      → any fails (deploy 0 c).0 ≡ false
      → In q profile.phases
      → is_held engine table profile plan options q ≡ false
      → is_cached engine table profile plan options q ≡ true
      → is_done engine table profile plan options q (deploy 0 c).1.files ≡ true
  run_phases-is_done c q f m h k =
      Rounds-done engine table profile plan options 0 q
        (run_phases-Rounds engine table profile plan options 0 0 profile.phases c) f refl m h k

  -- After such a run, whatever became of the world since, a run that is not forced and goes by the
  -- same options starts no phase whose records are kept.
  pub run_phases_again :
      (c again : Ctx engine table profile plan options) (start : ℕ) (q : String)
      → any fails (deploy 0 c).0 ≡ false
      → again.files ≡ (deploy 0 c).1.files
      → options.force ≡ false
      → is_cached engine table profile plan options q ≡ true
      → any (starts q) (deploy start again).0 ≡ false
  run_phases_again c again start q f same free k =
      elim (Bool-cases (any (starts q) (deploy start again).0)) [
        | inr quiet ↦ quiet
        | inl s ↦
            let t =
              run_phases-IsStarted engine table profile plan options start 0 profile.phases again q
                s in
            let d = run_phases-is_done c q f t.listed t.not_held k in
            elim t.pending [
              | inl forced ↦ absurd (false_ne_true forced free)
              | inr n ↦ absurd (false_ne_true d (rw (sym same) n))
            ]
      ]
