-- ===== src/Topology/Reserved.antt =====
-- The hosts of the libvirt network (rodeo/inventory.py) are those that drift looks for
-- (rodeo/drift.py).
use rodeo_cli.Base.{
  ◌≡◌, refl, ap, String, ◌<>◌, Bool, true, not, ◌&&◌, Option, none, some, List, [], ◌∷◌, map,
  string_eq, arith, Option-cases,
}
use rodeo_cli.Base.Lists.{all}
use rodeo_cli.Portal.Text.{is_empty}
use rodeo_cli.Fleet.Inventory.{or_none}
use rodeo_cli.Topology.Nodes.{RawNode, default}
use rodeo_cli.Topology.Cables.{NetHost, get_mac, dhcp_host, dhcp_hosts}
use rodeo_cli.Topology.Rendered.{is_given}
use rodeo_cli.Drift.Plan.{VmNode}
use rodeo_cli.Drift.Report.{dhcp_host_fragment}

-- What drift reads of a node.
abbrev pub vm_node : RawNode → VmNode
vm_node n = record { name = default "" n.name; flavor = n.flavor; ip = n.ip; mgmt_mac = n.mgmt_mac }

-- The line of a host in the network's XML.
abbrev pub host_line : NetHost → String
host_line h =
    "mac='" <> (default "" h.mac <> ("' name='" <> (h.name <> ("' ip='" <> (h.ip <> "'")))))

abbrev pub fragments : List RawNode → List String
fragments [] = []
fragments (n ∷ nodes) = elim (dhcp_host_fragment (vm_node n)) [
  | none ↦ fragments nodes
  | some f ↦ f ∷ fragments nodes
]

-- A name, and no empty address.
abbrev pub is_addressed : RawNode → Bool
is_addressed n = is_given n.name && (elim n.ip [ none ↦ true | some ip ↦ not (is_empty ip) ])

line_of : Option NetHost → Option String
line_of none = none
line_of (some h) = some (host_line h)

fragment-line :
    (n : RawNode) → is_addressed n ≡ true → dhcp_host_fragment (vm_node n) ≡ line_of (dhcp_host n)
unfolding dhcp_host_fragment dhcp_host get_mac or_none line_of string_eq is_empty
fragment-line n h =
    let p = Option-cases n.mgmt_mac in
    let q = Option-cases n.ip in let m = Option-cases n.name in ground (arith, h, p, q, m)

prepend-line :
    (o : Option NetHost) (lines : List String) (hosts : List NetHost)
    → lines ≡ map host_line hosts
    → elim (line_of o) as (λ x. List String) [ none ↦ lines | some l ↦ l ∷ lines ]
      ≡ map host_line (elim o as (λ x. List NetHost) [ none ↦ hosts | some h ↦ h ∷ hosts ])
unfolding line_of
prepend-line none lines hosts h = h
prepend-line (some x) lines hosts h = ap (λ l. host_line x ∷ l) h

-- Where every node has a name and no address is empty, the lines that drift looks for in the
-- network are those of the hosts that the network was built with, in their order.
pub fragments-dhcp_hosts :
    (nodes : List RawNode)
    → all is_addressed nodes ≡ true
    → fragments nodes ≡ map host_line (dhcp_hosts nodes)
unfolding dhcp_hosts
fragments-dhcp_hosts [] h = refl
fragments-dhcp_hosts (n ∷ nodes) h =
    rw (fragment-line n (ground (arith, h)), fragments)
      (prepend-line (dhcp_host n) _ _ (fragments-dhcp_hosts nodes (ground (arith, h))))
