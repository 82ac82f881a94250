-- ===== src/Drift/Report.antt =====
-- rodeo/drift.py: the report, how it is collected, and what it says about the phases.
use rodeo_cli.Base.{
  ℕ, String, ◌<>◌, pos, Bool, true, false, not, ◌&&◌, Option, none, some, List, [], ◌∷◌, ◌++◌, map,
  ◌==◌, nat_eq, string_eq, contains, if◌then◌else◌,
}
use rodeo_cli.Base.Lists.{length, any, keep}
use rodeo_cli.Base.Dict
use rodeo_cli.Base.Dict.{Dict}
use rodeo_cli.Portal.Python.{Python}
use rodeo_cli.Config.Substring.{is_in}
use rodeo_cli.Fleet.Inventory.{or_none}
use rodeo_cli.Drift.Plan.{
  VmNode, Resources, PlanConfig, plan_vm_rows, vm_flavor_map, fallback_flavor_name,
}

pub data Kind : Type 0 where
  create : Kind
  memory : Kind
  vcpu : Kind
  dhcp : Kind

unfoldable pub is_create : Kind → Bool
is_create Kind.create = true
is_create _ = false

unfoldable pub is_dhcp : Kind → Bool
is_dhcp Kind.dhcp = true
is_dhcp _ = false

-- kind in ("memory", "vcpu", "dhcp")
unfoldable pub is_resource : Kind → Bool
is_resource Kind.create = false
is_resource _ = true

pub record VmChange : Type 0 where
  pub name : String
  pub kind : Kind
  pub desired : String
  pub ip : String
  pub actual_state : String
  pub from_value : Option ℕ
  pub to_value : Option ℕ

-- name, desired, ip, state
pub record VmOk : Type 0 where
  pub name : String
  pub desired : String
  pub ip : String
  pub state : String

pub record DriftReport : Type 0 where
  pub reachable : Bool
  pub vm_changes : List VmChange
  pub vm_ok : List VmOk
  pub net_active : Option Bool

unfoldable pub create_count : DriftReport → ℕ
create_count r = length (keep (λ c. is_create c.kind) r.vm_changes)

unfoldable pub change_count : DriftReport → ℕ
change_count r = length (keep (λ c. is_resource c.kind) r.vm_changes)

unfoldable pub ok_count : DriftReport → ℕ
ok_count r = length r.vm_ok

unfoldable pub vms_plan_drift : DriftReport → Bool
vms_plan_drift r = elim r.vm_changes [ [] ↦ false | c ∷ l ↦ true ]

-- The phases to reset: the set as a list.
unfoldable pub phases_affected : DriftReport → List String
phases_affected r =
    if r.reachable && any (λ c. is_resource c.kind) r.vm_changes then "vms" ∷ [] else []

-- What list_vms tells; 0 is unknown.
pub record VmInfo : Type 0 where
  pub state : String
  pub memory_mib : ℕ
  pub vcpus : ℕ

-- What inspect_host returns.
pub record Host : Type 0 where
  pub vms : Dict VmInfo
  pub net_active : Bool
  pub net_xml : Option String

unfoldable pub flavor_resources : PlanConfig → String → Dict String → Resources
flavor_resources cfg vm flavors =
    let key : String = elim (Dict.lookup vm flavors) [
      | none ↦ fallback_flavor_name vm
      | some f ↦ f
    ] in
    (elim (Dict.lookup key cfg.resources) [
      | none ↦ record { memory_mib = none; vcpu = none }
      | some r ↦ r
    ])

unfoldable pub dhcp_host_fragment : VmNode → Option String
unfolding or_none
dhcp_host_fragment node = elim (or_none node.mgmt_mac) [
  | none ↦ none
  | some mac ↦ elim (or_none (some node.name)) [
    | none ↦ none
    | some name ↦ elim (or_none node.ip) [
      | none ↦ none
      | some ip ↦ some ("mac='" <> (mac <> ("' name='" <> (name <> ("' ip='" <> (ip <> "'"))))))
    ]
  ]
]

abbrev pub address : Option String → String
address none = ""
address (some ip) = ip

-- The change of a node whose line is missing, if it has one and it is.
unfoldable pub dhcp_change : String → VmNode → Option VmChange
dhcp_change net_xml node = elim (dhcp_host_fragment node) [
  | none ↦ none
  | some fragment ↦
      if is_in fragment net_xml
      then none
      else some (record {
        name = node.name;
        kind = Kind.dhcp;
        desired = fragment;
        ip = address node.ip;
        actual_state = "";
        from_value = none;
        to_value = none;
      })
]

unfoldable pub dhcp_changes : String → List VmNode → List VmChange
dhcp_changes net_xml [] = []
dhcp_changes net_xml (n ∷ nodes) = elim (dhcp_change net_xml n) [
  | none ↦ dhcp_changes net_xml nodes
  | some c ↦ c ∷ dhcp_changes net_xml nodes
]

unfoldable pub dhcp_drift : Option String → Option (List VmNode) → List VmChange
dhcp_drift none nodes = []
dhcp_drift (some net_xml) none = []
dhcp_drift (some net_xml) (some nodes) = dhcp_changes net_xml nodes

-- The changes that a reachable host starts with.
unfoldable pub collect_dhcp_drift : PlanConfig → Host → List VmChange
collect_dhcp_drift cfg host = dhcp_drift host.net_xml cfg.vm_nodes

-- Both are known, and they differ.
unfoldable pub differs : ℕ → Option ℕ → Bool
differs actual none = false
differs actual (some wanted) = not (actual == 0) && not (wanted == 0) && not (actual == wanted)

-- What becomes of a row: a change, nothing, or a VM that is as planned.
pub data Verdict : Type 0 where
  changed : VmChange → Verdict
  flagged : Verdict
  fine : VmOk → Verdict

unfoldable pub created : String → String → String → VmChange
created name desired ip = record {
  name = name;
  kind = Kind.create;
  desired = desired;
  ip = ip;
  actual_state = "";
  from_value = none;
  to_value = none;
}

unfoldable pub resized : Kind → String → String → String → String → ℕ → Option ℕ → VmChange
resized kind name desired ip state from to = record {
  name = name;
  kind = kind;
  desired = desired;
  ip = ip;
  actual_state = state;
  from_value = some from;
  to_value = to;
}

unfoldable pub is_flagged : String → List VmChange → Bool
unfolding is_dhcp
is_flagged name changes = any (λ c. c.name == name && is_dhcp c.kind) changes

unfoldable pub note : Verdict → DriftReport → DriftReport
note (Verdict.changed c) r = record {
  reachable = r.reachable;
  vm_changes = r.vm_changes ++ (c ∷ []);
  vm_ok = r.vm_ok;
  net_active = r.net_active;
}
note Verdict.flagged r = r
note (Verdict.fine o) r = record {
  reachable = r.reachable;
  vm_changes = r.vm_changes;
  vm_ok = r.vm_ok ++ (o ∷ []);
  net_active = r.net_active;
}

-- The last step: no DHCP line for a VM that is to be created.
unfoldable pub drop_implied : DriftReport → DriftReport
drop_implied r =
    let create_names = map (λ c. c.name) (keep (λ c. is_create c.kind) r.vm_changes) in
    record {
      reachable = r.reachable;
      vm_changes = keep (λ c. not (is_dhcp c.kind && contains create_names c.name)) r.vm_changes;
      vm_ok = r.vm_ok;
      net_active = r.net_active;
    }

-- What the plan gives a VM.
abbrev pub res_of : PlanConfig → String → Resources
res_of cfg name = flavor_resources cfg name (vm_flavor_map cfg)

module _ (py : Python) where
  unfoldable pub shown_or : Option ℕ → String
  shown_or none = "?"
  shown_or (some n) = py.str (pos n)

  unfoldable pub desired_of : Resources → String
  unfolding shown_or
  desired_of res = shown_or res.memory_mib <> (" MiB / " <> (shown_or res.vcpu <> " vcpu"))

  unfoldable pub judge : Resources → String → String → Option VmInfo → List VmChange → Verdict
  judge res name ip none changes = Verdict.changed (created name (desired_of res) ip)
  judge res name ip (some info) changes =
      if info.state == "not found"
      then Verdict.changed (created name (desired_of res) ip)
      else if differs info.memory_mib res.memory_mib
      then Verdict.changed
          (resized Kind.memory name (desired_of res) ip info.state info.memory_mib res.memory_mib)
      else if differs info.vcpus res.vcpu
      then Verdict.changed
          (resized Kind.vcpu name (desired_of res) ip info.state info.vcpus res.vcpu)
      else if is_flagged name changes
      then Verdict.flagged
      else Verdict.fine
          (record { name = name; desired = desired_of res; ip = ip; state = info.state })

  module _ (cfg : PlanConfig) where
    unfoldable pub judge_rows : Host → List (String × Option String) → DriftReport → DriftReport
    unfolding judge note
    judge_rows host [] r = r
    judge_rows host ((name, ip) ∷ rows) r = judge_rows host rows (
        note (judge (res_of cfg name) name (address ip) (Dict.lookup name host.vms) r.vm_changes) r)

    -- Without a host, every VM is listed as desired.
    unfoldable pub desired_rows : List (String × Option String) → List VmOk
    desired_rows [] = []
    desired_rows ((name, ip) ∷ rows) =
        (record {
          name = name;
          desired = desired_of (res_of cfg name);
          ip = address ip;
          state = "desired";
        })
        ∷ desired_rows rows

    unfoldable pub collect_drift : Option Host → DriftReport
    unfolding judge_rows desired_rows drop_implied
    collect_drift none = record {
      reachable = false;
      vm_changes = [];
      vm_ok = desired_rows (plan_vm_rows cfg);
      net_active = none;
    }
    collect_drift (some host) = drop_implied (
        judge_rows host (plan_vm_rows cfg) (record {
          reachable = true;
          vm_changes = collect_dhcp_drift cfg host;
          vm_ok = [];
          net_active = some host.net_active;
        }))

  unfoldable pub change_line : VmChange → List String
  change_line c = elim c.kind [
    | Kind.create ↦ []
    | Kind.memory ↦
        (c.name
          <> (": memory "
              <> (shown_none c.from_value <> (" → " <> (shown_none c.to_value <> " MiB")))))
        ∷ []
    | Kind.vcpu ↦
        (c.name <> (": vcpu " <> (shown_none c.from_value <> (" → " <> shown_none c.to_value))))
        ∷ []
    | Kind.dhcp ↦ (c.name <> (": DHCP reservation missing or drifted (" <> (c.desired <> ")"))) ∷ []
  ]
    where
      shown_none : Option ℕ → String
      shown_none none = "None"
      shown_none (some n) = py.str (pos n)

  -- The lines for the log, of the changes in order.
  unfoldable pub change_lines : List VmChange → List String
  unfolding change_line
  change_lines [] = []
  change_lines (c ∷ l) = change_line c ++ change_lines l

  unfoldable pub resource_change_lines : DriftReport → List String
  resource_change_lines r = change_lines r.vm_changes
