-- ===== src/Pipeline/Engine.antt =====
-- What the runner works on and with (rodeo/engine/runner.py): its events, the plan, its options, and
-- the engine that does the work of a phase, a parameter.
use rodeo_cli.Base.{ℤ, String, Bool, Option, List, Outcome}
use rodeo_cli.Pipeline.State.{Files}

-- What a phase yields while it works.
pub data Log : Type 0 where
  log_line : String → Log
  progress_update : String → String → Log

-- The events of a run, without the times that they measure.
pub data Event : Type 0 where
  phase_started : String → Event
  phase_skipped : String → String → Event
  phase_done : String → Event
  phase_failed : String → ℤ → String → Event
  log : Log → Event
  deploy_complete : Event

-- A phase's work has ended: what it logged, the return code it left, and the text of an exception.
pub record Execution (World : Type 0) : Type 0 where
  pub events : List Log
  pub last_rc : ℤ
  pub raised : Option String
  pub world : World

-- The world outside, and what acts on it: Ansible, the runner's methods, and the tests that a run
-- makes of it. A method's work begins with the return code of the work before it.
pub record Engine : Type 1 where
  pub World : Type 0
  pub stream_ansible : String → World → ℤ → Execution World
  pub run_method : String → World → ℤ → Execution World
  -- The phases that drifted, and the lines that say how.
  pub collect_drift : World → List String × List String
  -- ensure_collections: whether it ran, and its return code and text if there is a result.
  pub has_requirements : Bool
  pub ensure_collections : World → Bool × Option (ℤ × String) × World
  -- The rest of _write_vars_file, where the plan is not refused; it may raise.
  pub write_vars : World → Outcome String World
  pub is_stopped : World → Bool
  pub now : World → String
  pub str : ℤ → String

-- A plan's keys that the runner reads.
pub record Plan : Type 0 where
  pub name : String
  pub deployment_target : String
  pub vms : List String
  -- None where the key is missing; and what harvester_vm_names finds in the plan.
  pub harvester_node_names : Option (List String)
  pub harvester_vms : List String
  -- Empty where missing.
  pub harvester_os_password : String
  pub rancher_vm_password : String
  pub harvester_token : String
  pub harvester_version : String
  pub harvester_iso_checksum : String

pub record Options : Type 0 where
  pub from_phase : Option String
  pub install_collections : Bool
  pub force : Bool
  pub include_guarded : Bool
  pub reconcile : Bool

-- What a run changes: the state files, the return code, and the world.
pub record Context (World : Type 0) : Type 0 where
  pub files : Files
  pub last_rc : ℤ
  pub world : World
