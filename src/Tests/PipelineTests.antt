-- ===== src/Tests/PipelineTests.antt =====
-- The pipeline (rodeo/state.py, rodeo/engine/runner.py) on an engine whose Rancher phase fails in a
-- world that is not mended yet.
use rodeo_cli.Base.{
  ◌≡◌, ◌≢◌, refl, pos, String, Bool, true, false, Option, none, some, List, [], ◌∷◌, ok, ◌⊎◌, inl,
  inr, string_eq, nat_eq, option_eq, ◌==◌, ◌&&◌, if◌then◌else◌,
}
use rodeo_cli.Base.Lists.{any, In}
use rodeo_cli.Base.Dict
use rodeo_cli.Base.Dict.{Dict}
use rodeo_cli.Portal.Text.{is_empty}
use rodeo_cli.Pipeline.State.{
  Files, is_phase_done, mark_phase_done, mark_phase_failed, index, reset_from, load_state,
  save_state, stored, record_phase, entry_done,
}
use rodeo_cli.Pipeline.Profile.{rancher, stream_phases}
use rodeo_cli.Pipeline.Engine.{Event, Execution, Engine, Plan, Options, Context, log_line}
use rodeo_cli.Pipeline.Vars.{vars_refusal, needs_harvester, needs_rancher_vm}
use rodeo_cli.Pipeline.Runner.{
  is_zero, run_stream, run_phase, guard_active, note_done, conclude, attempt, step, run_phases, run,
}
use rodeo_cli.Pipeline.Status.{Report}
use rodeo_cli.Pipeline.Steps.{starts, fails, is_done, is_held}
use rodeo_cli.Pipeline.Rounds.{is_cached}
use rodeo_cli.Pipeline.Records.{is_cleared, reset_from-is_phase_done}
use rodeo_cli.Pipeline.Resume.{
  IsStarted, run_phases-IsStarted, deploy, run_phases-is_done, run_phases_again,
}
use rodeo_cli.Pipeline.Failure.{IsHalted, run_phases-IsHalted, run_phases_resume}
use rodeo_cli.Pipeline.Recorded.{IsOwn, run_phases-IsOwn}
use rodeo_cli.Pipeline.Starting.{run_phases_must}
use rodeo_cli.Portal.Text.{strip}
use rodeo_cli.Pipeline.Profile.{Profile}
use rodeo_cli.Pipeline.Registry.{is_registered, register_profile, provider_key, register_provider}
use rodeo_cli.Tests.PortalTests.{py}
use rodeo_cli.Pipeline.Prepared.{is_equipped, StartsNothing}
use rodeo_cli.Pipeline.From.{IsRerun, run-IsRerun}

abbrev finished : Bool → Bool → Execution Bool
finished good world = record {
  events = log_line "working" ∷ [];
  last_rc = if good then pos 0 else pos 2;
  raised = none;
  world = world;
}

abbrev engine : Engine
engine = record {
  World = Bool;
  stream_ansible = λ phase mended rc. finished true mended;
  run_method = λ method mended rc.
      if method == "stream_rancher"
      then record (finished mended mended) { world = true }
      else finished true mended;
  collect_drift = λ w. ([], []);
  has_requirements = true;
  ensure_collections = λ w. (true, some (pos 0, ""), w);
  write_vars = λ w. ok w;
  is_stopped = λ w. false;
  now = λ w. "10:00";
  str = λ n. "2";
}

abbrev plan : Plan
plan = record {
  name = "lab";
  deployment_target = "baremetal";
  vms = "rancher" ∷ "k3s" ∷ [];
  harvester_node_names = none;
  harvester_vms = [];
  harvester_os_password = "";
  rancher_vm_password = "secret";
  harvester_token = "";
  harvester_version = "1.8.2";
  harvester_iso_checksum = "";
}

-- A plan with Harvester nodes and no password is refused.
abbrev harvester_plan : Plan
harvester_plan = record plan { harvester_vms = "k3s" ∷ [] }

harvester_refused : vars_refusal harvester_plan ≢ none
unfolding vars_refusal needs_harvester is_empty
harvester_refused h = cc

abbrev options : Options
options = record {
  from_phase = none;
  install_collections = true;
  force = false;
  include_guarded = false;
  reconcile = false;
}

abbrev from_rancher : Options
from_rancher = record options { from_phase = some "rancher" }

abbrev C : Type 0
C = Context Bool

abbrev fresh : Bool → C
fresh mended = record { files = []; last_rc = pos 0; world = mended }

abbrev first : C
first = (deploy engine stream_phases rancher plan options 0 (fresh true)).1

abbrev broken : C
broken = (deploy engine stream_phases rancher plan options 0 (fresh false)).1

first_works : any fails (deploy engine stream_phases rancher plan options 0 (fresh true)).0 ≡ false
unfolding run_phases step attempt conclude note_done guard_active run_phase run_stream is_zero
    rancher stream_phases is_phase_done entry_done mark_phase_done record_phase save_state
    load_state stored Dict.lookup Dict.insert string_eq
first_works = refl

broken_fails : any fails (deploy engine stream_phases rancher plan options 0 (fresh false)).0 ≡ true
unfolding run_phases step attempt conclude note_done guard_active run_phase run_stream is_zero
    rancher stream_phases is_phase_done entry_done mark_phase_done mark_phase_failed record_phase
    save_state load_state stored Dict.lookup Dict.insert string_eq
broken_fails = refl

apply_runs_again :
    any (starts "apply") (deploy engine stream_phases rancher plan options 0 first).0 ≡ true
unfolding run_phases step attempt conclude note_done guard_active run_phase run_stream is_zero
    rancher stream_phases is_phase_done entry_done mark_phase_done mark_phase_failed record_phase
    save_state load_state stored Dict.lookup Dict.insert string_eq
apply_runs_again = refl

boot_starts :
    any (starts "boot") (deploy engine stream_phases rancher plan options 0 (fresh true)).0 ≡ true
unfolding run_phases step attempt conclude note_done guard_active run_phase run_stream is_zero
    rancher stream_phases is_phase_done entry_done mark_phase_done mark_phase_failed record_phase
    save_state load_state stored Dict.lookup Dict.insert string_eq
boot_starts = refl

boot_listed : In "boot" rancher.phases
unfolding rancher
boot_listed = inr (inr (inl refl))

boot_cached : is_cached engine stream_phases rancher plan options "boot" ≡ true
unfolding rancher string_eq
boot_cached = refl

not_held : (q : String) → is_held engine stream_phases rancher plan options q ≡ false
unfolding guard_active string_eq
not_held q = refl

files_after : Files
unfolding mark_phase_done record_phase save_state load_state stored Dict.insert
files_after = mark_phase_done "vms" "lab" none "9:00" []

two_phases-ne-nil : ◌≢◌ {A = List String} ("kvm_host" ∷ "vms" ∷ []) []
two_phases-ne-nil h = cc

reset_from-is_phase_done_example :
    (after : Files) × (reset_from "vms" "lab" ("kvm_host" ∷ "vms" ∷ []) files_after ≡ ok after)
    × ((q other : String) (asked : Option String)
        → is_phase_done q other asked after ≡ (
            if other == "lab" && is_cleared "vms" ("kvm_host" ∷ "vms" ∷ []) q
            then false
            else is_phase_done q other asked files_after))
reset_from-is_phase_done_example =
    reset_from-is_phase_done "vms" "lab" ("kvm_host" ∷ "vms" ∷ []) files_after two_phases-ne-nil

run_phases-IsStarted_example :
    IsStarted engine stream_phases rancher plan options 0 (fresh true) rancher.phases "boot"
run_phases-IsStarted_example =
    run_phases-IsStarted engine stream_phases rancher plan options 0 0 rancher.phases (fresh true)
      "boot" boot_starts

run_phases-is_done_example :
    is_done engine stream_phases rancher plan options "boot" first.files ≡ true
run_phases-is_done_example =
    run_phases-is_done engine stream_phases rancher plan options (fresh true) "boot" first_works
      boot_listed (not_held "boot") boot_cached

run_phases_again_example :
    any (starts "boot") (deploy engine stream_phases rancher plan options 0 first).0 ≡ false
run_phases_again_example =
    run_phases_again engine stream_phases rancher plan options (fresh true) first 0 "boot"
      first_works refl refl boot_cached

abbrev mended : C
mended = record broken { world = true }

run_phases_resume_example :
    (h : IsHalted engine stream_phases rancher plan options
      (fresh false)
      broken
      rancher.phases
      (deploy engine stream_phases rancher plan options 0 (fresh false)).0)
    × ((q : String)
        → In q h.before
        → (q == h.failed) ≡ false
        → is_cached engine stream_phases rancher plan options q ≡ true
        → any (starts q) (deploy engine stream_phases rancher plan options 0 mended).0 ≡ false)
run_phases_resume_example =
    run_phases_resume engine stream_phases rancher plan options (fresh false) mended 0 broken_fails
      refl refl

run_phases-IsHalted_example :
    IsHalted engine stream_phases rancher plan options
      (fresh false)
      broken
      rancher.phases
      (deploy engine stream_phases rancher plan options 0 (fresh false)).0
run_phases-IsHalted_example =
    run_phases-IsHalted engine stream_phases rancher plan options (fresh false) broken_fails

boot_done : is_phase_done "boot" "lab" none first.files ≡ true
unfolding run_phases step attempt conclude note_done guard_active run_phase run_stream is_zero
    rancher stream_phases is_phase_done entry_done mark_phase_done mark_phase_failed record_phase
    save_state load_state stored Dict.lookup Dict.insert string_eq
boot_done = refl

run_phases-IsOwn_example :
    (is_phase_done "boot" "lab" none [] ≡ true)
    ⊎ IsOwn engine stream_phases rancher plan options "boot" "lab" none rancher.phases
run_phases-IsOwn_example =
    run_phases-IsOwn engine stream_phases rancher plan options "boot" "lab" none 0 0 rancher.phases
      (fresh true) boot_done

nothing_done : is_done engine stream_phases rancher plan options "boot" [] ≡ false
unfolding run_phases step attempt conclude note_done guard_active run_phase run_stream is_zero
    rancher stream_phases is_phase_done entry_done mark_phase_done mark_phase_failed record_phase
    save_state load_state stored Dict.lookup Dict.insert string_eq
nothing_done = refl

run_phases_must_example :
    any
      (starts "boot")
      (run_phases engine stream_phases rancher plan options 0 0 rancher.phases (fresh true)).0
    ≡ true
run_phases_must_example =
    run_phases_must engine stream_phases rancher plan options 0 rancher.phases (fresh true) "boot"
      first_works boot_listed (inr nothing_done) (not_held "boot")

rancher_third : index "rancher" rancher.phases ≡ some 3
unfolding index rancher string_eq
rancher_third = refl

run-IsRerun_example :
    ((is_equipped engine stream_phases rancher plan from_rancher ≡ true)
      × (r : List Event × C) × (run engine stream_phases rancher plan from_rancher first ≡ ok r)
      × IsRerun engine stream_phases rancher plan from_rancher 3 r)
    ⊎ ((is_equipped engine stream_phases rancher plan from_rancher ≡ false)
        × StartsNothing engine stream_phases rancher plan from_rancher
            (run engine stream_phases rancher plan from_rancher first))
run-IsRerun_example =
    run-IsRerun engine stream_phases rancher plan from_rancher "rancher" 3 rancher_third first refl
      (unfold is_empty in refl) refl (λ w. (w, refl))

plan_equipped : is_equipped engine stream_phases rancher plan from_rancher ≡ true
unfolding needs_harvester needs_rancher_vm is_empty string_eq
plan_equipped = refl

abbrev report : Report
report =
    (
      "kvm_host",
      some (record { completed = true; no_cache = false; timestamp = none; last_error = none }),
    )
    ∷ (
      "apply",
      some (record { completed = false; no_cache = false; timestamp = none; last_error = none }),
    )
    ∷ []

abbrev my_lab : Profile
my_lab = record {
  name = "my-lab";
  phases = "vms" ∷ [];
  vm_names = [];
  ansible_phases = [];
  guarded_phases = [];
  no_cache_phases = [];
  phase_key = λ p. none;
}

my_lab_registered : register_profile my_lab false [] ≡ ok (("my-lab", my_lab) ∷ [])
unfolding register_profile is_registered is_empty Dict.lookup Dict.insert
my_lab_registered = refl

abbrev host : String
host = "host"

gcp_registered : register_provider py " gcp" host false [] ≡ ok (("gcp", host) ∷ [])
unfolding register_provider provider_key is_registered is_empty strip Dict.lookup Dict.insert nat_eq
gcp_registered = refl

same_name : provider_key py "gcp " ≡ provider_key py " gcp"
unfolding provider_key strip nat_eq
same_name = refl
