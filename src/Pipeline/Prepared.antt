-- ===== src/Pipeline/Prepared.antt =====
-- `DeployRunner.run` of rodeo/engine/runner.py between its start and its phases: the collections and
-- the vars file.
use rodeo_cli.Base.{
  ◌||◌, Outcome, err, Option-cases, ◌≡◌, ◌≢◌, refl, ℕ, ℤ, String, Bool, true, false, not, ◌&&◌,
  Option, none, some, List, [], ◌++◌, inl, inr, Bool-cases, ok, string_eq, leb, arith,
}
use rodeo_cli.Base.Lists.{any, any-append}
use rodeo_cli.Base.Dict.{Dict}
use rodeo_cli.Portal.Text.{is_empty}
use rodeo_cli.Pipeline.Vars.{
  needs_harvester, needs_rancher_vm, rancher_password, checksum, vars_refusal, write_vars_file,
}
use rodeo_cli.Config.Substring.{starts_with}
use rodeo_cli.Pipeline.Profile.{Profile, Stream}
use rodeo_cli.Pipeline.Engine.{Event, Engine, Plan, Options}
use rodeo_cli.Pipeline.Runner.{
  RunError, state_error, vars_error, is_zero, first_ansible, collections_installed, install,
  run_phases, run_written, run_from,
}
use rodeo_cli.Pipeline.Steps.{starts, fails, Ctx}
use rodeo_cli.Pipeline.Resume.{false_ne_true}

module _ (engine : Engine) (table : Dict Stream) (profile : Profile) (plan : Plan)
    (options : Options) where
  abbrev Start : Type 0
  Start = Ctx engine table profile plan options

  -- Collections fail as an event, or let the run go on, and start no phase.
  collections_events :
      (ran : Bool) (result : Option (ℤ × String)) (w : engine.World)
      → let r = collections_installed engine table profile plan options ran result w in
        (any fails r.0 ≡ not r.1) × ((q : String) → any (starts q) r.0 ≡ false)
  unfolding collections_installed
  collections_events false result w = (refl, λ q. refl)
  collections_events true none w = (refl, λ q. refl)
  collections_events true (some (rc, text)) w = elim (Bool-cases (is_zero rc)) [
    | inl z ↦ rw z (refl, λ q. refl)
    | inr z ↦ rw z (refl, λ q. refl)
  ]

  install_events :
      (start : ℕ) (w : engine.World)
      → let r = install engine table profile plan options start w in
        (any fails r.0 ≡ not r.1) × ((q : String) → any (starts q) r.0 ≡ false)
  install_events start w =
      let needed =
        options.install_collections
        && (leb start (first_ansible profile profile.phases) && engine.has_requirements) in
      let c = engine.ensure_collections w in
      elim (Bool-cases needed) [
        | inl y ↦ unfold install in rw y (collections_events c.0 c.1 c.2)
        | inr n ↦ unfold install in rw n (refl, λ q. refl)
      ]

  -- What a run does after its preparations.
  pub record IsRunFrom (start : ℕ) (c : Start) (r : List Event × Start) : Type 0 where
    pub inner : Start
    pub files : inner.files ≡ c.files
    pub started :
        (q : String)
        → any (starts q) r.0 ≡ true
        → any
            (starts q)
            (run_phases engine table profile plan options start 0 profile.phases inner).0
          ≡ true
    pub unfailed :
        any fails r.0 ≡ false
        → (any fails (run_phases engine table profile plan options start 0 profile.phases inner).0
            ≡ false)
          × ((q : String)
              → any
                  (starts q)
                  (run_phases engine table profile plan options start 0 profile.phases inner).0
                ≡ true
              → any (starts q) r.0 ≡ true)

  -- The plan has a password and a token for its Harvester nodes, with a checksum that is pinned, and
  -- a password for its Rancher or EIB VM.
  abbrev pub is_equipped : Bool
  is_equipped =
      (not (needs_harvester plan)
        || (not (is_empty plan.harvester_os_password)
            && (not (is_empty plan.harvester_token) && starts_with "sha512:" (checksum plan))))
      && (not (needs_rancher_vm plan)
          || (not (is_empty plan.rancher_vm_password) || not (is_empty plan.harvester_os_password)))

  equipped_lem : is_equipped ≡ true → vars_refusal plan ≡ none
  unfolding vars_refusal rancher_password
  equipped_lem h = ground (arith, h)

  lacking_lem : is_equipped ≡ false → vars_refusal plan ≢ none
  unfolding vars_refusal rancher_password
  lacking_lem h e = ground (arith, h, e)

  refused_lem : is_equipped ≡ false → (m : String) × (vars_refusal plan ≡ some m)
  refused_lem h = elim (Option-cases (vars_refusal plan)) [
    | inl e ↦ absurd (lacking_lem h e)
    | inr found ↦ found
  ]

  -- The run ends without a phase that it started.
  abbrev pub StartsNothing : Outcome (RunError engine.World) (List Event × Start) → Type 0
  StartsNothing (ok (es, d)) = (q : String) → any (starts q) es ≡ false
  StartsNothing (err (vars_error m es d)) = (q : String) → any (starts q) es ≡ false
  StartsNothing (err (state_error e)) = ⊥

  pub run_from-StartsNothing :
      is_equipped ≡ false
      → (start : ℕ) (c : Start)
      → StartsNothing (run_from engine table profile plan options [] start c)
  run_from-StartsNothing h start c =
      let i = install engine table profile plan options start c.world in
      let quiet = (install_events start c.world).1 in
      let (m, e) = refused_lem h in
      elim (Bool-cases i.1) [
        | inl y ↦ unfold run_from run_written write_vars_file in rw (y, e, write_vars_file) quiet
        | inr n ↦ unfold run_from in rw n quiet
      ]

  -- The rest of _write_vars_file does not raise.
  abbrev pub CanWrite : Type 0
  CanWrite = (w : engine.World) → (v : engine.World) × (engine.write_vars w ≡ ok v)

  written_lem :
      CanWrite
      → is_equipped ≡ true
      → (w : engine.World) → (v : engine.World) × (write_vars_file engine plan w ≡ ok v)
  written_lem writes equipped w =
      let (v, e) = writes w in
      (v, unfold write_vars_file in rw (equipped_lem equipped, write_vars_file) e)

  pub run_from-IsRunFrom :
      CanWrite
      → is_equipped ≡ true
      → (start : ℕ) (c : Start)
      → (r : List Event × Start) × (run_from engine table profile plan options [] start c ≡ ok r)
        × IsRunFrom start c r
  run_from-IsRunFrom can equipped start c =
      let i = install engine table profile plan options start c.world in
      let (bad, quiet) = install_events start c.world in
      let (v, writes) = written_lem can equipped i.2 in
      let inner : Start = record c { world = v } in
      let loop = run_phases engine table profile plan options start 0 profile.phases inner in
      elim (Bool-cases i.1) [
        | inl y ↦ (
          (i.0 ++ loop.0, loop.1),
          unfold run_from run_written in rw (y, writes) refl,
          record {
            inner = inner;
            files = refl;
            started = λ q s. ground (arith, s, quiet q, any-append (starts q) i.0 loop.0);
            unfailed = λ f. (
              ground (arith, f, any-append fails i.0 loop.0),
              λ q s. rw (any-append (starts q) i.0 loop.0) (ground (arith, s)),
            );
          },
        )
        | inr n ↦ (
          (i.0, record c { world = i.2 }),
          unfold run_from in rw n refl,
          record {
            inner = inner;
            files = refl;
            started = λ q s. absurd (false_ne_true s (quiet q));
            unfailed = λ f. absurd (ground (arith, bad, f, n));
          },
        )
      ]
