-- ===== src/Pipeline/Runner.antt =====
-- `DeployRunner.run` of rodeo/engine/runner.py and `run_phase` of rodeo/profiles/base.py. The events
-- that the generator yields are a list.
use Prim.Native.Nat.{min}
use rodeo_cli.Base.{
  ℕ, zero, suc, ℤ, pos, String, ◌<>◌, Bool, true, false, not, ◌&&◌, Option, none, some, List, [],
  ◌∷◌, ◌++◌, map, Outcome, ok, err, ◌==◌, string_eq, contains, ltb, leb, if◌then◌else◌,
}
use rodeo_cli.Base.Dict
use rodeo_cli.Base.Dict.{Dict}
use rodeo_cli.Portal.Text.{is_empty}
use rodeo_cli.Pipeline.State.{
  Files, StateError, index_or_zero, reset_from, is_phase_done, mark_phase_done, mark_phase_failed,
}
use rodeo_cli.Pipeline.Profile.{Profile, Stream}
use rodeo_cli.Pipeline.Vars.{write_vars_file}
use rodeo_cli.Pipeline.Engine.{
  Event, phase_started, phase_skipped, phase_done, phase_failed, Log, log_line, log,
  deploy_complete, Execution, Engine, Plan, Options, Context,
}

-- What ends a run: an empty list of phases, or the file for Ansible, after the events until then.
pub data RunError (World : Type 0) : Type 0 where
  state_error : StateError → RunError World
  vars_error : String → List Event → Context World → RunError World

-- self._last_rc == 0
unfoldable pub is_zero : ℤ → Bool
is_zero (pos zero) = true
is_zero _ = false

abbrev pub vms_reset : String
vms_reset =
    "  ⚠  --reconcile: resetting from 'vms' due to resource drift. Running domains may still need `rodeo clean` + redeploy to apply memory/vCPU (libvirt redefine alone is not enough); DHCP host redefine also requires VMs stopped."

abbrev pub guard_line : String → String
guard_line phase =
    "  ⚠  "
    <> (phase
        <> " skipped: deployment_target is 'instruqt' and this phase breaks Instruqt image save. Run with --finalise after the image snapshot, or set deployment_target: baremetal.")

-- The first ansible phase's place, or the number of phases.
unfoldable pub first_ansible : Profile → List String → ℕ
first_ansible profile [] = 0
first_ansible profile (p ∷ ps) =
    let rest = first_ansible profile ps in if contains profile.ansible_phases p then 0 else suc rest

module _ (engine : Engine) (table : Dict Stream) (profile : Profile) (plan : Plan) where
  -- A phase that does nothing.
  abbrev pub idle : List Log → engine.World → Execution engine.World
  idle events world = record { events = events; last_rc = pos 0; raised = none; world = world }

  unfoldable pub run_stream : String → Option Stream → engine.World → ℤ → Execution engine.World
  run_stream phase none world rc = idle [] world
  run_stream phase (some spec) world rc =
      if spec.needs_rancher && not (contains plan.vms "rancher")
      then idle (log_line ("No Rancher node in topology — skipping " <> (phase <> " phase.")) ∷ [])
          world
      else engine.run_method spec.method world rc

  unfoldable pub run_phase : String → engine.World → ℤ → Execution engine.World
  run_phase phase world rc =
      if contains profile.ansible_phases phase
      then engine.stream_ansible phase world rc
      else run_stream phase (Dict.lookup phase table) world rc

  module _ (options : Options) where
    unfoldable pub guard_active : Bool
    guard_active = plan.deployment_target == "instruqt" && not options.include_guarded

    -- An exception is a log line and the return code 1.
    abbrev pub logged : String → Execution engine.World → List Event
    logged phase x = elim x.raised [
      | none ↦ map log x.events
      | some text ↦
          map log x.events
          ++ log (log_line ("  ✗  " <> (phase <> (": unexpected error: " <> text)))) ∷ []
    ]

    abbrev pub code_of : Execution engine.World → ℤ
    code_of x = elim x.raised [ none ↦ x.last_rc | some _ ↦ pos 1 ]

    -- The record of a phase whose work has ended well.
    unfoldable pub note_done : String → engine.World → Files → Files
    note_done phase world fs =
        if contains profile.no_cache_phases phase
        then fs
        else mark_phase_done phase plan.name (profile.phase_key phase) (engine.now world) fs

    -- After the work: the events, whether the loop goes on, and what is left.
    unfoldable pub conclude :
        String → Execution engine.World → Files → List Event × Bool × Context engine.World
    conclude phase x fs =
        if is_zero (code_of x)
        then (
          phase_started phase ∷ (logged phase x ++ phase_done phase ∷ []),
          true,
          record { files = note_done phase x.world fs; last_rc = code_of x; world = x.world },
        )
        else (
          phase_started phase
              ∷ (logged phase x ++ phase_failed phase (code_of x) (phase <> " failed") ∷ []),
          false,
          record {
            files =
                mark_phase_failed phase (phase <> (" exited " <> engine.str (code_of x))) plan.name
                  (engine.now x.world) fs;
            last_rc = code_of x;
            world = x.world;
          },
        )

    unfoldable pub attempt :
        String → Context engine.World → List Event × Bool × Context engine.World
    attempt phase c =
        if engine.is_stopped c.world
        then (
          phase_failed phase (pos 130) "cancelled" ∷ [],
          false,
          record c {
            files = mark_phase_failed phase "cancelled" plan.name (engine.now c.world) c.files;
          },
        )
        else conclude phase (run_phase phase c.world c.last_rc) c.files

    -- One round of the loop.
    unfoldable pub step :
        ℕ → ℕ → String → Context engine.World → List Event × Bool × Context engine.World
    step start i phase c =
        if ltb i start
        then (phase_skipped phase "before_start" ∷ [], true, c)
        else if not options.force && is_phase_done phase plan.name (profile.phase_key phase) c.files
        then (phase_skipped phase "done" ∷ [], true, c)
        else if guard_active && contains profile.guarded_phases phase
        then (log (log_line (guard_line phase)) ∷ phase_skipped phase "instruqt" ∷ [], true, c)
        else attempt phase c

    unfoldable pub run_phases :
        ℕ → ℕ → List String → Context engine.World → List Event × Context engine.World
    run_phases start i [] c = (deploy_complete ∷ [], c)
    run_phases start i (phase ∷ phases) c =
        let (events, go_on, next) = step start i phase c in
        let (rest, last) = run_phases start (suc i) phases next in
        if go_on then (events ++ rest, last) else (events, next)

    -- `if self.from_phase`: a phase is given.
    unfoldable pub given : Option String → Option String
    given none = none
    given (some p) = if is_empty p then none else some p

    unfoldable pub reset_given : Option String → Files → Outcome StateError Files
    reset_given none fs = ok fs
    reset_given (some p) fs = reset_from p plan.name profile.phases fs

    unfoldable pub start_of : Option String → ℕ
    start_of none = 0
    start_of (some p) = index_or_zero p profile.phases

    -- Drift of the VMs clears their record and the later ones.
    unfoldable pub reconcile_vms :
        ℕ → Context engine.World → Outcome StateError (List Event × ℕ × Context engine.World)
    reconcile_vms start c =
        let (affected, lines) = engine.collect_drift c.world in
        if options.reconcile
          && (not options.force && (contains profile.phases "vms" && contains affected "vms"))
        then (elim (reset_from "vms" plan.name profile.phases c.files) [
          | err e ↦ err e
          | ok fs ↦ ok (
            map (λ line. log (log_line ("  ~ drift: " <> line))) lines
                ++ log (log_line vms_reset) ∷ [],
            min start (index_or_zero "vms" profile.phases),
            record c { files = fs },
          )
        ])
        else ok ([], start, c)

    unfoldable pub collections_installed :
        Bool → Option (ℤ × String) → engine.World → List Event × Bool × engine.World
    collections_installed false result world =
        (log (log_line "  ✓  Ansible collections up to date") ∷ [], true, world)
    collections_installed true none world = (
      log (log_line "Installing Ansible collections...")
          ∷ log (log_line "  ✓  collections installed")
          ∷ [],
      true,
      world,
    )
    collections_installed true (some (rc, text)) world =
        if is_zero rc
        then (
          log (log_line "Installing Ansible collections...")
              ∷ log (log_line "  ✓  collections installed")
              ∷ [],
          true,
          world,
        )
        else (
          log (log_line "Installing Ansible collections...")
              ∷ log (log_line ("  ✗  ansible-galaxy failed: " <> text))
              ∷ phase_failed "setup" rc "collection install failed"
              ∷ [],
          false,
          world,
        )

    unfoldable pub install : ℕ → engine.World → List Event × Bool × engine.World
    install start world =
        let (ran, result, world') = engine.ensure_collections world in
        if options.install_collections
          && (leb start (first_ansible profile profile.phases) && engine.has_requirements)
        then collections_installed ran result world'
        else ([], true, world)

    -- The file for Ansible, then the phases.
    unfoldable pub run_written :
        List Event
        → ℕ
        → Context engine.World
        → Outcome String engine.World
        → Outcome (RunError engine.World) (List Event × Context engine.World)
    run_written before start c (err m) = err (vars_error m before c)
    run_written before start c (ok world) =
        let (rest, last) = run_phases start 0 profile.phases (record c { world = world }) in
        ok (before ++ rest, last)

    -- From the collections on.
    unfoldable pub run_from :
        List Event
        → ℕ
        → Context engine.World
        → Outcome (RunError engine.World) (List Event × Context engine.World)
    run_from before start c =
        let (events, installed, world) = install start c.world in
        let written =
          run_written (before ++ events) start (record c { world = world })
            (write_vars_file engine plan world) in
        if installed then written else ok (before ++ events, record c { world = world })

    unfoldable pub run :
        Context engine.World → Outcome (RunError engine.World) (List Event × Context engine.World)
    run c = elim (reset_given (given options.from_phase) c.files) [
      | err e ↦ err (state_error e)
      | ok fs ↦
          elim (reconcile_vms (start_of (given options.from_phase)) (record c { files = fs })) [
            | err e ↦ err (state_error e)
            | ok (events, start, c') ↦ run_from events start c'
          ]
    ]
