-- ===== src/Topology/Cables.antt =====
-- What rodeo/inventory.py makes of rendered nodes: the flat MACs of a node, and the data for PXE,
-- the firewall and the libvirt network.
use rodeo_cli.Base.{
  ℕ, pos, String, Bool, false, Option, none, some, List, [], ◌∷◌, map, ◌==◌, string_eq,
  if◌then◌else◌,
}
use rodeo_cli.Base.Dict
use rodeo_cli.Base.Dict.{Dict}
use rodeo_cli.Portal.Python.{Python}
use rodeo_cli.Portal.Instructor.{sort_by, text_before}
use rodeo_cli.Fleet.Inventory.{or_none}
use rodeo_cli.Fleet.Selecting.{distinct}
use rodeo_cli.Topology.Nodes.{Iface, RawNode, Template, Renderer, default, render_nodes}

-- An interface with a MAC sets the flat key of its role. Rendered interfaces have MACs.
unfoldable pub set_flat : Option String → Option String → RawNode → RawNode
set_flat (some role) (some mac) n =
    if role == "mgmt"
    then record n { mgmt_mac = some mac }
    else if role == "storage"
    then record n { storage_mac = some mac }
    else if role == "migration"
    then record n { migration_mac = some mac }
    else if role == "service"
    then (elim n.service1_mac [
      | none ↦ record n { service1_mac = some mac }
      | some m ↦ record n { service2_mac = some mac }
    ])
    else n
set_flat role mac n = n

unfoldable pub flat_macs : List Iface → RawNode → RawNode
unfolding set_flat
flat_macs [] n = n
flat_macs (i ∷ ifaces) n = flat_macs ifaces (set_flat i.role (or_none i.mac) n)

unfoldable pub derive_macs : Option (List Iface) → RawNode → RawNode
unfolding flat_macs or_none
derive_macs none n = n
derive_macs (some ifaces) n = elim (or_none n.mgmt_mac) [ none ↦ flat_macs ifaces n | some m ↦ n ]

-- A node with a template and no flavor takes what the template has.
unfoldable pub take_template : Dict Template → Option String → Option String → RawNode → RawNode
take_template templates (some t) none n = elim (Dict.lookup t templates) [
  | none ↦ n
  | some tmpl ↦ record n {
    flavor = tmpl.flavor;
    ssh_user = elim n.ssh_user [ none ↦ tmpl.ssh_user | some u ↦ some u ];
  }
]
take_template templates t f n = n

unfoldable pub normalize_node : Dict Template → RawNode → RawNode
unfolding derive_macs take_template
normalize_node templates n =
    let m = derive_macs n.interfaces n in take_template templates m.template m.flavor m

unfoldable pub mac_of_role : String → List Iface → Option String
mac_of_role role [] = none
mac_of_role role (i ∷ ifaces) =
    let rest = mac_of_role role ifaces in
    let found : Bool = elim i.role [ none ↦ false | some r ↦ r == role ] in
    if found then i.mac else rest

unfoldable pub get_mac : RawNode → String → Option String
unfolding mac_of_role
get_mac n role =
    if role == "mgmt"
    then n.mgmt_mac
    else if role == "storage"
    then n.storage_mac
    else if role == "migration"
    then n.migration_mac
    else if role == "service1"
    then n.service1_mac
    else if role == "service2"
    then n.service2_mac
    else (elim n.interfaces [ none ↦ none | some ifaces ↦ mac_of_role role ifaces ])

module _ (py : Python) (r : Renderer) (plan : String) where
  unfoldable pub vm_nodes : Dict Template → List RawNode → List RawNode
  unfolding normalize_node
  vm_nodes templates raw = map (normalize_node templates) (render_nodes py r plan templates 0 raw)

-- A host of PXE or DHCP.
pub record NetHost : Type 0 where
  pub name : String
  pub mac : Option String
  pub ip : String

-- The nodes that boot from the network; none where one of them has no address, which raises.
unfoldable pub pxe_nodes : List RawNode → Option (List NetHost)
unfolding get_mac
pxe_nodes [] = some []
pxe_nodes (n ∷ nodes) =
    let rest = pxe_nodes nodes in
    let boots : Bool = elim n.flavor [ none ↦ false | some f ↦ f == "harvester" ] in
    if boots
    then (elim n.ip [
      | none ↦ none
      | some ip ↦ elim rest [
        | none ↦ none
        | some l ↦ some ((record { name = default "" n.name; mac = get_mac n "mgmt"; ip = ip }) ∷ l)
      ]
    ])
    else rest

unfoldable pub dhcp_host : RawNode → Option NetHost
unfolding get_mac or_none
dhcp_host n = elim (or_none (get_mac n "mgmt")) [
  | none ↦ none
  | some mac ↦ elim n.ip [
    | none ↦ none
    | some ip ↦ some (record { name = default "" n.name; mac = some mac; ip = ip })
  ]
]

-- The static hosts of the libvirt network.
unfoldable pub dhcp_hosts : List RawNode → List NetHost
unfolding dhcp_host
dhcp_hosts [] = []
dhcp_hosts (n ∷ nodes) = elim (dhcp_host n) [
  | none ↦ dhcp_hosts nodes
  | some h ↦ h ∷ dhcp_hosts nodes
]

pub record Service : Type 0 where
  pub target : Option String
  pub host_port : ℕ
  pub guest_port : ℕ
  pub proto : Option String

pub record Forward : Type 0 where
  pub port : ℕ
  pub toport : ℕ
  pub toaddr : String
  pub proto : String

-- The address of the first node called rancher, if there is one; none where a node before it has no
-- name, or it has no address, which raises.
unfoldable pub rancher_addr : List RawNode → Option (Option String)
rancher_addr [] = some none
rancher_addr (n ∷ nodes) =
    let rest = rancher_addr nodes in
    (elim n.name [
      | none ↦ none
      | some name ↦
          if name == "rancher" then (elim n.ip [ none ↦ none | some ip ↦ some (some ip) ]) else rest
    ])

unfoldable pub target_addr : List RawNode → Option String → Option (Option String)
unfolding rancher_addr
target_addr raw none = some none
target_addr raw (some t) =
    if t == "vip"
    then some (some "192.168.122.10")
    else if t == "rancher"
    then rancher_addr raw
    else some none

unfoldable pub forward_of : Service → Option String → List Forward
unfolding or_none
forward_of svc addr = elim (or_none addr) [
  | none ↦ []
  | some a ↦
      (record {
        port = svc.host_port;
        toport = svc.guest_port;
        toaddr = a;
        proto = default "tcp" svc.proto;
      })
      ∷ []
]

unfoldable pub port_forwards : List RawNode → List Service → Option (List Forward)
unfolding forward_of target_addr
port_forwards raw [] = some []
port_forwards raw (svc ∷ services) = elim (target_addr raw svc.target) [
  | none ↦ none
  | some addr ↦ elim (port_forwards raw services) [
    | none ↦ none
    | some l ↦ some (join (forward_of svc addr) l)
  ]
]
  where
    join : List Forward → List Forward → List Forward
    join [] l = l
    join (f ∷ fs) l = f ∷ join fs l

-- sorted(set of the host ports, as texts)
unfoldable pub exposed_ports : Python → List Forward → List String
unfolding sort_by distinct
exposed_ports py forwards = sort_by text_before (distinct (map (λ f. py.str (pos f.port)) forwards))
