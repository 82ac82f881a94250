-- ===== src/Tests/PlanningTests.antt =====
-- Sizes, budgets and instances at concrete data (rodeo/providers/instance_catalog.py,
-- rodeo/sizing.py, rodeo/instances.py).
use Prim.Native.Char.{code}
use rodeo_cli.Base.{
  ◌+◌, ◌≡◌, refl, sym, ◌∙◌, ap, ℕ, zero, suc, ◌*◌, ◌/◌, ◌≤◌, ℤ, pos, negsuc, String, true, Option,
  none, some, [], ◌∷◌, ok, ◌>>=◌, ◌==◌, string_eq, nat_eq, if◌then◌else◌, arith,
}
use rodeo_cli.Base.Lists.{length}
use rodeo_cli.Base.Dict
use rodeo_cli.Base.Dict.{Dict}
use rodeo_cli.Portal.Python.{Python}
use rodeo_cli.Portal.Text.{codes, strip, is_empty}
use rodeo_cli.Cloud.Catalog.{normalize_tier, tiers, explicit_type}
use rodeo_cli.Cloud.Resolving.{HasLower}
use rodeo_cli.Planning.Sizing.{
  Preset, Block, budget_or_default, instruqt_vcpu_budget, other_presets, preset_for, harvester_vcpu,
  with_harvester, compute_instruqt_presets, get,
}
use rodeo_cli.Base.Rows.{has, is_unique}
use rodeo_cli.Planning.Taken.{flavor_of, taken, others}
use rodeo_cli.Planning.Budget.{IsSeventy, compute_instruqt_presets-fits}
use rodeo_cli.Planning.Instances.{split_on, join, add_nat, ints, shift_octets, shift_ip, shift_port}
use rodeo_cli.Planning.Instances.{
  Network, Topology, shift_key, set_key, shift_mac, set_third, network_name, bridge_name,
  domain_name, shift_node, shift_nodes, apply_to_topology,
}
use rodeo_cli.Planning.Moving.{IsMoved, apply_to_topology-IsMoved}
use rodeo_cli.Planning.Disjoint.{has_no, IsPrinting, shift_ip-disjoint}
use rodeo_cli.Tests.PortalTests.{py}

-- Numbers in strokes, with a dash in front of the negative ones.
strokes : ℕ → String
strokes zero = ""
strokes (suc n) = String.◌∷◌ "1" (strokes n)

print : ℤ → String
print (pos n) = strokes n
print (negsuc n) = String.◌∷◌ "-" (strokes n)

parse : String → ℤ
unfolding codes
parse String.[] = pos 0
parse (String.◌∷◌ c s) =
    if code c == 45 then negsuc (length (codes s)) else pos (suc (length (codes s)))

length-strokes : (n : ℕ) → length (codes (strokes n)) ≡ n
unfolding strokes codes
length-strokes zero = refl
length-strokes (suc n) = ap suc (length-strokes n)

parse-print : (i : ℤ) → parse (print i) ≡ i
unfolding parse print strokes nat_eq
parse-print (pos zero) = refl
parse-print (pos (suc n)) = ap (λ k. pos (suc k)) (length-strokes n)
parse-print (negsuc n) = ap negsuc (length-strokes n)

strokes-dotless : (n : ℕ) → has_no 46 (strokes n) ≡ true
unfolding strokes has_no nat_eq
strokes-dotless zero = refl
strokes-dotless (suc n) = strokes-dotless n

print-dotless : (i : ℤ) → has_no 46 (print i) ≡ true
unfolding print has_no nat_eq
print-dotless (pos n) = strokes-dotless n
print-dotless (negsuc n) = strokes-dotless n

abbrev stroke_py : Python
stroke_py = record py { str = print; int = λ s. some (parse s) }

stroke_py-IsPrinting : IsPrinting stroke_py
stroke_py-IsPrinting = record {
  injective = λ i j h. sym (parse-print i) ∙ ap parse h ∙ parse-print j;
  no_dot = print-dotless;
}

moved : shift_ip stroke_py "11.1.111.1" 2 ≡ ok "11.1.11111.1"
unfolding shift_ip shift_octets ints split_on join add_nat print parse strokes codes nat_eq
moved = refl

shift_ip-disjoint_example : ◌≡◌ {A = ℕ} 2 2
shift_ip-disjoint_example =
    shift_ip-disjoint stroke_py stroke_py-IsPrinting "11.1.111.1" "11.1.11111.1" 2 2 moved moved

same_port : shift_port 3 1000 (some 443) ≡ shift_port 3 1000 (some 443)
same_port = refl

abbrev network : Network stroke_py
network = record { ip_network = λ s. some ("11.1.111.1", 24); hex2 = λ n. "02" }

abbrev topology : String → String → Option ℕ → Topology
topology ip mac port = record {
  name = some "default";
  bridge = none;
  domain = some "lab";
  cidr = none;
  gateway = some ip;
  range_start = none;
  range_end = none;
  nodes = record { ip = some ip; mgmt_mac = some mac; interfaces = [] } ∷ [];
  host_ports = port ∷ none ∷ [];
}

abbrev second : Topology
second = record (topology "11.1.11111.1" "02:00:02:5A:00:20" (some 2443)) {
  name = some "rodeo-i11";
  bridge = some "rbr11";
  domain = some "i11.lab";
}

second_made :
    apply_to_topology stroke_py network
      (topology "11.1.111.1" "02:00:00:5A:00:20" (some 443))
      2
      1000
    ≡ ok second
unfolding apply_to_topology shift_key shift_nodes shift_node set_key shift_mac set_third shift_port
    network_name bridge_name domain_name shift_ip shift_octets ints split_on join add_nat print
    parse strokes codes nat_eq is_empty ◌>>=◌
second_made = refl

apply_to_topology-IsMoved_example :
    IsMoved stroke_py network 2 1000 (topology "11.1.111.1" "02:00:00:5A:00:20" (some 443)) second
apply_to_topology-IsMoved_example =
    apply_to_topology-IsMoved stroke_py network
      (topology "11.1.111.1" "02:00:00:5A:00:20" (some 443)) second 1 1000 second_made

py-HasLower : HasLower py
py-HasLower = record { budget = refl; recommended = refl; performance = refl }

asked_budget : normalize_tier py (some " budget ") ≡ ok "budget"
unfolding normalize_tier tiers is_empty strip string_eq nat_eq
asked_budget = refl

asked_none : normalize_tier py none ≡ ok "recommended"
unfolding normalize_tier
asked_none = refl

blank_type : is_empty (explicit_type (some " ")) ≡ true
unfolding explicit_type is_empty strip nat_eq
blank_type = refl

seventy : ℕ → ℕ
seventy n = n * 7 / 10

seventy-IsSeventy : IsSeventy seventy
unfolding seventy
seventy-IsSeventy = record { bound = λ n. omega arith }

abbrev lab_flavors : Dict ℕ
lab_flavors = ("harvester", 3) ∷ ("rancher", 1) ∷ []

abbrev harvester_preset : Preset
harvester_preset = record { memory_mib = 20480; vcpu = 6 }

preset_found :
    Dict.lookup "harvester" (compute_instruqt_presets seventy (pos 32) lab_flavors)
    ≡ some harvester_preset
unfolding compute_instruqt_presets with_harvester harvester_vcpu other_presets preset_for get
    budget_or_default instruqt_vcpu_budget seventy Dict.lookup Dict.insert string_eq nat_eq
preset_found = refl

abbrev lab_presets : Dict Preset
lab_presets = compute_instruqt_presets seventy (pos 32) lab_flavors

room :
    taken lab_presets (others lab_flavors) + 4 * get lab_flavors "harvester" 0
    ≤ budget_or_default seventy (pos 32)
unfolding compute_instruqt_presets with_harvester harvester_vcpu other_presets preset_for get
    budget_or_default instruqt_vcpu_budget seventy Dict.lookup Dict.insert string_eq nat_eq
room = omega arith

flavors_once : is_unique flavor_of lab_flavors ≡ true
unfolding is_unique has string_eq
flavors_once = refl

compute_instruqt_presets-fits_example :
    (4 ≤ 6) × (6 ≤ 8) × (taken lab_presets lab_flavors * 10 ≤ 32 * 7)
compute_instruqt_presets-fits_example =
    compute_instruqt_presets-fits seventy 32 lab_flavors harvester_preset seventy-IsSeventy
      (omega arith) flavors_once room preset_found

abbrev block : Block
block = ("vcpu", 16) ∷ ("disk_gb", 500) ∷ []

abbrev show : Option ℕ → String
show n = "n"
