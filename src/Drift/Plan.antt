-- ===== src/Drift/Plan.antt =====
-- The VMs of a plan (the last part of rodeo/inventory.py): their rows, flavors and names. The
-- rendered nodes are an argument, none where build_inventory raises.
use rodeo_cli.Base.{
  ℕ, String, not, ◌&&◌, Option, none, some, List, [], ◌∷◌, ◌++◌, ◌==◌, string_eq, contains,
  if◌then◌else◌,
}
use rodeo_cli.Base.Lists.{keep}
use rodeo_cli.Base.Dict
use rodeo_cli.Base.Dict.{Dict, keys}
use rodeo_cli.Config.Substring.{starts_with}
use rodeo_cli.Fleet.Inventory.{or_none}

-- The keys of a rendered node that count here; a key that is missing is none.
pub record VmNode : Type 0 where
  pub name : String
  pub flavor : Option String
  pub ip : Option String
  pub mgmt_mac : Option String

-- A block of `resources`.
pub record Resources : Type 0 where
  pub memory_mib : Option ℕ
  pub vcpu : Option ℕ

-- The parts of cfg: `vms` with the address of each, `resources` by flavor, and the node names of
-- each downstream cluster.
pub record PlanConfig : Type 0 where
  pub vms : Dict (Option String)
  pub resources : Dict Resources
  pub downstream : List (List String)
  pub vm_nodes : Option (List VmNode)

unfoldable pub fallback_flavor_name : String → String
unfolding starts_with
fallback_flavor_name vm =
    if vm == "rancher"
    then "rancher"
    else if vm == "eib"
    then "eib"
    else if starts_with "edge" vm
    then "edge-node"
    else "harvester"

unfoldable pub downstream_node_names : PlanConfig → List String
downstream_node_names cfg = flatten cfg.downstream
  where
    flatten : List (List String) → List String
    flatten [] = []
    flatten (l ∷ r) = l ++ flatten r

unfoldable pub harvester_vm_names : PlanConfig → List String
harvester_vm_names cfg =
    keep
      (λ n.
        not (contains ("rancher" ∷ "eib" ∷ []) n)
        && not (starts_with "edge" n)
        && not (contains (downstream_node_names cfg) n))
      (keys cfg.vms)

-- The address of the plan wins; without one the node's is taken.
unfoldable pub row_ip : Option (Option String) → VmNode → Option String
unfolding or_none
row_ip spec node =
    let planned : Option String = elim spec [ none ↦ none | some ip ↦ ip ] in
    (elim (or_none planned) [
      | some ip ↦ some ip
      | none ↦ elim (or_none node.ip) [ none ↦ planned | some ip ↦ some ip ]
    ])

unfoldable pub node_rows : Dict (Option String) → List VmNode → List (String × Option String)
node_rows vms [] = []
node_rows vms (n ∷ nodes) = (n.name, row_ip (Dict.lookup n.name vms) n) ∷ node_rows vms nodes

unfoldable pub plan_vm_rows : PlanConfig → List (String × Option String)
plan_vm_rows cfg = elim cfg.vm_nodes [
  | none ↦ cfg.vms
  | some [] ↦ cfg.vms
  | some (n ∷ nodes) ↦ node_rows cfg.vms (n ∷ nodes)
]

-- `{n["name"]: n["flavor"]}`: none where a node has no flavor, which raises.
unfoldable pub node_flavors : Dict String → List VmNode → Option (Dict String)
node_flavors out [] = some out
node_flavors out (n ∷ nodes) = elim n.flavor [
  | none ↦ none
  | some f ↦ node_flavors (Dict.insert n.name f out) nodes
]

unfoldable pub fallback_flavors : List String → Dict String
fallback_flavors [] = []
fallback_flavors (n ∷ names) = (n, fallback_flavor_name n) ∷ fallback_flavors names

unfoldable pub or_fallback : List String → Option (Dict String) → Dict String
or_fallback names none = fallback_flavors names
or_fallback names (some d) = d

unfoldable pub vm_flavor_map : PlanConfig → Dict String
unfolding or_fallback
vm_flavor_map cfg =
    or_fallback (keys cfg.vms)
      (elim cfg.vm_nodes [ none ↦ none | some nodes ↦ node_flavors [] nodes ])
