-- ===== src/Drift/Affected.antt =====
-- Which phases rodeo/drift.py says are affected, against a description that does not build a report.
use rodeo_cli.Base.{
  ◌≡◌, refl, ◌∙◌, ap, String, Bool, true, false, not, ◌&&◌, ◌||◌, Option, none, some, List, [], ◌∷◌,
  ◌++◌, map, ◌==◌, string_eq, contains, if◌then◌else◌, arith,
}
use rodeo_cli.Base.Lists.{any, keep, any-append}
use rodeo_cli.Base.Dict
use rodeo_cli.Portal.Python.{Python}
use rodeo_cli.Config.Substring.{is_in}
use rodeo_cli.Drift.Plan.{VmNode, Resources, PlanConfig, plan_vm_rows}
use rodeo_cli.Drift.Report.{
  is_create, is_dhcp, is_resource, VmChange, DriftReport, Host, VmInfo, Verdict, judge, judge_rows,
  res_of, address, collect_drift, drop_implied, created, resized, differs, collect_dhcp_drift,
  dhcp_changes, dhcp_change, dhcp_drift, dhcp_host_fragment, phases_affected, is_flagged, note,
}
use rodeo_cli.Drift.Reported.{change_of, row_changes, changes-judge_rows}

-- The VM is not on the host.
abbrev pub is_missing : Option VmInfo → Bool
is_missing none = true
is_missing (some info) = info.state == "not found"

-- The VM is there with another size.
abbrev pub is_resized : Resources → Option VmInfo → Bool
is_resized res none = false
is_resized res (some info) =
    not (info.state == "not found")
    && (differs info.memory_mib res.memory_mib || differs info.vcpus res.vcpu)

module _ (cfg : PlanConfig) (host : Host) where
  abbrev pub missing_names : List (String × Option String) → List String
  missing_names [] = []
  missing_names ((name, ip) ∷ rows) =
      if is_missing (Dict.lookup name host.vms)
      then name ∷ missing_names rows
      else missing_names rows

  abbrev pub any_resized : List (String × Option String) → Bool
  any_resized [] = false
  any_resized ((name, ip) ∷ rows) =
      is_resized (res_of cfg name) (Dict.lookup name host.vms) || any_resized rows

-- The node has a reservation that the network does not, and its VM need not be created first.
abbrev pub is_unreserved : List String → String → VmNode → Bool
is_unreserved names net_xml node = elim (dhcp_host_fragment node) [
  | none ↦ false
  | some f ↦ not (is_in f net_xml) && not (contains names node.name)
]

abbrev pub any_unreserved : List String → Option String → Option (List VmNode) → Bool
any_unreserved names none nodes = false
any_unreserved names (some net_xml) none = false
any_unreserved names (some net_xml) (some nodes) = any (is_unreserved names net_xml) nodes

abbrev creates : List VmChange → List String
creates l = map (λ c. c.name) (keep (λ c. is_create c.kind) l)

abbrev counts : List String → VmChange → Bool
counts names c = is_resource c.kind && not (is_dhcp c.kind && contains names c.name)

keep-append :
    (p : VmChange → Bool) (xs ys : List VmChange) → keep p (xs ++ ys) ≡ keep p xs ++ keep p ys
keep-append p [] ys = refl
keep-append p (x ∷ xs) ys = ground (arith, keep-append p xs ys)

map-append :
    (xs ys : List VmChange)
    → map (λ c. c.name) (xs ++ ys) ≡ map (λ c. c.name) xs ++ map (λ c. c.name) ys
map-append [] ys = refl
map-append (x ∷ xs) ys = ap (λ l. x.name ∷ l) (map-append xs ys)

creates-append : (xs ys : List VmChange) → creates (xs ++ ys) ≡ creates xs ++ creates ys
creates-append xs ys =
    rw
      (
        keep-append (λ c. is_create c.kind) xs ys,
        map-append (keep (λ c. is_create c.kind) xs) (keep (λ c. is_create c.kind) ys),
      )
      refl

if-append :
    (b : Bool) (s : String) (l : List String)
    → (if b then s ∷ [] else []) ++ l ≡ (if b then s ∷ l else l)
if-append true s l = refl
if-append false s l = refl

any-keep :
    (names : List String) (l : List VmChange)
    → any (λ c. is_resource c.kind) (keep (λ c. not (is_dhcp c.kind && contains names c.name)) l)
      ≡ any (counts names) l
any-keep names [] = refl
any-keep names (c ∷ l) = ground (arith, any-keep names l)

module _ (net_xml : String) where
  creates-dhcp_changes : (nodes : List VmNode) → creates (dhcp_changes net_xml nodes) ≡ []
  unfolding dhcp_changes dhcp_change is_create
  creates-dhcp_changes [] = refl
  creates-dhcp_changes (n ∷ nodes) = ground (arith, creates-dhcp_changes nodes)

  counts-dhcp_changes :
      (names : List String) (nodes : List VmNode)
      → any (counts names) (dhcp_changes net_xml nodes) ≡ any (is_unreserved names net_xml) nodes
  unfolding dhcp_changes dhcp_change is_resource is_dhcp
  counts-dhcp_changes names [] = refl
  counts-dhcp_changes names (n ∷ nodes) = ground (arith, counts-dhcp_changes names nodes)

module _ (py : Python) where
  creates-judge :
      (res : Resources) (name ip : String) (info : Option VmInfo)
      → creates (change_of (judge py res name ip info []))
        ≡ (if is_missing info then name ∷ [] else [])
  unfolding judge created resized is_create is_flagged
  creates-judge res name ip none = refl
  creates-judge res name ip (some info) = ground arith

  counts-judge :
      (names : List String) (res : Resources) (name ip : String) (info : Option VmInfo)
      → any (counts names) (change_of (judge py res name ip info [])) ≡ is_resized res info
  unfolding judge created resized is_resource is_dhcp is_flagged
  counts-judge names res name ip none = refl
  counts-judge names res name ip (some info) = ground arith

  module _ (cfg : PlanConfig) (host : Host) where
    creates-row_changes :
        (rows : List (String × Option String))
        → creates (row_changes py cfg host rows) ≡ missing_names cfg host rows
    creates-row_changes [] = refl
    creates-row_changes ((name, ip) ∷ rows) =
        let info = Dict.lookup name host.vms in
        let c = change_of (judge py (res_of cfg name) name (address ip) info []) in
        creates-append c (row_changes py cfg host rows)
        ∙ (rw (creates-judge (res_of cfg name) name (address ip) info, creates-row_changes rows)
            (if-append (is_missing info) name (missing_names cfg host rows)))

    counts-row_changes :
        (names : List String) (rows : List (String × Option String))
        → any (counts names) (row_changes py cfg host rows) ≡ any_resized cfg host rows
    counts-row_changes names [] = refl
    counts-row_changes names ((name, ip) ∷ rows) =
        let info = Dict.lookup name host.vms in
        let c = change_of (judge py (res_of cfg name) name (address ip) info []) in
        ground (
          arith,
          any-append (counts names) c (row_changes py cfg host rows),
          counts-judge names (res_of cfg name) name (address ip) info,
          counts-row_changes names rows,
        )

creates-dhcp_drift :
    (xml : Option String) (nodes : Option (List VmNode)) → creates (dhcp_drift xml nodes) ≡ []
unfolding dhcp_drift
creates-dhcp_drift none nodes = refl
creates-dhcp_drift (some xml) none = refl
creates-dhcp_drift (some xml) (some nodes) = creates-dhcp_changes xml nodes

counts-dhcp_drift :
    (names : List String) (xml : Option String) (nodes : Option (List VmNode))
    → any (counts names) (dhcp_drift xml nodes) ≡ any_unreserved names xml nodes
unfolding dhcp_drift
counts-dhcp_drift names none nodes = refl
counts-dhcp_drift names (some xml) none = refl
counts-dhcp_drift names (some xml) (some nodes) = counts-dhcp_changes xml names nodes

affected-drop_implied :
    (r : DriftReport)
    → phases_affected (drop_implied r)
      ≡ (if r.reachable && any (counts (creates r.vm_changes)) r.vm_changes then "vms" ∷ [] else [])
unfolding drop_implied phases_affected
affected-drop_implied r = rw (any-keep (creates r.vm_changes) r.vm_changes) refl

reachable-note : (v : Verdict) (r : DriftReport) → (note v r).reachable ≡ r.reachable
unfolding note
reachable-note (Verdict.changed c) r = refl
reachable-note Verdict.flagged r = refl
reachable-note (Verdict.fine o) r = refl

module _ (py : Python) (cfg : PlanConfig) (host : Host) where
  reachable-judge_rows :
      (rows : List (String × Option String)) (r : DriftReport)
      → (judge_rows py cfg host rows r).reachable ≡ r.reachable
  unfolding judge_rows
  reachable-judge_rows [] r = refl
  reachable-judge_rows ((name, ip) ∷ rows) r =
      let v =
        judge py (res_of cfg name) name (address ip) (Dict.lookup name host.vms) r.vm_changes in
      reachable-judge_rows rows (note v r) ∙ reachable-note v r

-- The phases to reset are `vms` just if a VM that is on the host differs in size, or a node lacks
-- its DHCP line in the network while its VM is not missing.
pub phases_affected-collect_drift :
    (py : Python) (cfg : PlanConfig) (host : Host)
    → let rows = plan_vm_rows cfg in
      phases_affected (collect_drift py cfg (some host)) ≡ (
        if any_unreserved (missing_names cfg host rows) host.net_xml cfg.vm_nodes
          || any_resized cfg host rows
        then "vms" ∷ []
        else [])
unfolding collect_drift collect_dhcp_drift
phases_affected-collect_drift py cfg host =
    let rows = plan_vm_rows cfg in
    let start : DriftReport = record {
      reachable = true;
      vm_changes = collect_dhcp_drift cfg host;
      vm_ok = [];
      net_active = some host.net_active;
    } in
    let r = judge_rows py cfg host rows start in
    let dhcp = dhcp_drift host.net_xml cfg.vm_nodes in
    let changes = row_changes py cfg host rows in
    let names = missing_names cfg host rows in
    affected-drop_implied r
    ∙ (rw
        (
          reachable-judge_rows py cfg host rows start,
          changes-judge_rows py cfg host rows start,
          creates-append dhcp changes,
          creates-dhcp_drift host.net_xml cfg.vm_nodes,
          creates-row_changes py cfg host rows,
          any-append (counts names) dhcp changes,
          counts-dhcp_drift names host.net_xml cfg.vm_nodes,
          counts-row_changes py cfg host names rows,
        )
        refl)
