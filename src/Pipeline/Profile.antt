-- ===== src/Pipeline/Profile.antt =====
-- rodeo/profiles/: what a rodeo type is made of, the phases of the bundled types, and the table of
-- the phases that Python drives.
use rodeo_cli.Base.{
  String, ◌<>◌, Bool, true, false, not, ◌&&◌, ◌||◌, Option, none, some, List, [], ◌∷◌, Outcome, ok,
  err, string_eq, if◌then◌else◌,
}
use rodeo_cli.Base.Dict
use rodeo_cli.Base.Dict.{Dict}
use rodeo_cli.Portal.Text.{is_empty}

-- The fields that decide how a pipeline runs. `phase_key` is applied to the plan already.
pub record Profile : Type 0 where
  pub name : String
  pub phases : List String
  pub vm_names : List String
  pub ansible_phases : List String
  pub guarded_phases : List String
  pub no_cache_phases : List String
  pub phase_key : String → Option String

abbrev no_key : String → Option String
no_key phase = none

unfoldable pub suse_virt : Profile
suse_virt = record {
  name = "suse-virt";
  phases =
      "kvm_host" ∷ "vms" ∷ "pxe_server" ∷ "cluster" ∷ "rancher" ∷ "apply" ∷ "finalise"
      ∷ "custom_scripts" ∷ [];
  vm_names = "harvester1" ∷ "harvester2" ∷ "harvester3" ∷ "rancher" ∷ [];
  ansible_phases = "kvm_host" ∷ "vms" ∷ "pxe_server" ∷ [];
  guarded_phases = "finalise" ∷ "custom_scripts" ∷ [];
  no_cache_phases = "apply" ∷ "custom_scripts" ∷ [];
  phase_key = no_key;
}

unfoldable pub rancher : Profile
rancher = record {
  name = "rancher";
  phases =
      "kvm_host" ∷ "vms" ∷ "boot" ∷ "rancher" ∷ "downstream" ∷ "apply" ∷ "finalise"
      ∷ "custom_scripts" ∷ [];
  vm_names = "rancher" ∷ "k3s" ∷ "rke2" ∷ "rke2-ha1" ∷ "rke2-ha2" ∷ "rke2-ha3" ∷ [];
  ansible_phases = "kvm_host" ∷ "vms" ∷ [];
  guarded_phases = "finalise" ∷ "custom_scripts" ∷ [];
  no_cache_phases = "apply" ∷ "custom_scripts" ∷ [];
  phase_key = no_key;
}

unfoldable pub rancher_test : Profile
unfolding rancher
rancher_test = record rancher { name = "rancher-test"; vm_names = "rancher" ∷ "k3s" ∷ "rke2" ∷ [] }

unfoldable pub suse_edge : Profile
suse_edge = record {
  name = "suse-edge";
  phases =
      "kvm_host" ∷ "vms" ∷ "boot" ∷ "rancher" ∷ "elemental" ∷ "apply" ∷ "finalise"
      ∷ "custom_scripts" ∷ [];
  vm_names = "rancher" ∷ "eib" ∷ "edge1" ∷ "edge2" ∷ "edge3" ∷ "edge4" ∷ [];
  ansible_phases = "kvm_host" ∷ "vms" ∷ [];
  guarded_phases = "finalise" ∷ "custom_scripts" ∷ [];
  no_cache_phases = "apply" ∷ "custom_scripts" ∷ [];
  phase_key = no_key;
}

-- A method of the runner, and whether the phase needs a Rancher node.
pub record Stream : Type 0 where
  pub method : String
  pub needs_rancher : Bool

abbrev stream : String → Bool → Stream
stream method needs_rancher = record { method = method; needs_rancher = needs_rancher }

unfoldable pub stream_phases : Dict Stream
stream_phases =
    ("boot", stream "stream_boot" false)
    ∷ ("cluster", stream "stream_cluster" false)
    ∷ ("rancher", stream "stream_rancher" true)
    ∷ ("elemental", stream "stream_elemental" true)
    ∷ ("downstream", stream "stream_downstream" true)
    ∷ ("apply", stream "stream_apply" false)
    ∷ ("custom_scripts", stream "stream_custom_scripts" false)
    ∷ ("finalise", stream "stream_finalise" false)
    ∷ []

pub data RegisterError : Type 0 where
  value_error : String → RegisterError

abbrev already_registered : String → RegisterError
already_registered phase =
    value_error
      ("stream phase '" <> (phase <> "' is already registered (pass replace=True to override)"))

abbrev registered : String → Dict Stream → Bool
registered phase table = elim (Dict.lookup phase table) [ none ↦ false | some _ ↦ true ]

unfoldable pub register_stream_phase :
    String → String → Bool → Bool → Dict Stream → Outcome RegisterError (Dict Stream)
register_stream_phase phase method needs_rancher replace table =
    if is_empty phase || is_empty method
    then err (value_error "register_stream_phase requires a phase and a runner method name")
    else if registered phase table && not replace
    then err (already_registered phase)
    else ok (Dict.insert phase (stream method needs_rancher) table)
