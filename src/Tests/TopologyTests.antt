-- ===== src/Tests/TopologyTests.antt =====
-- The nodes of a lab at concrete data (rodeo/inventory.py and drift.py).
use rodeo_cli.Base.{◌≡◌, refl, none, some, [], ◌∷◌, map, string_eq}
use rodeo_cli.Portal.Text.{is_empty}
use rodeo_cli.Fleet.Inventory.{or_none}
use rodeo_cli.Topology.Nodes.{RawNode, Template, Renderer, render_node}
use rodeo_cli.Topology.Cables.{dhcp_host, dhcp_hosts, get_mac}
use rodeo_cli.Topology.Rendered.{IsRendered, render_node-IsRendered}
use rodeo_cli.Topology.Reserved.{fragments, host_line, fragments-dhcp_hosts}
use rodeo_cli.Drift.Report.{dhcp_host_fragment}
use rodeo_cli.Tests.PortalTests.{py}

abbrev renderer : Renderer
renderer = record { uuid5 = λ s. s; format = λ pattern name label i. some label; hex = λ n. "4" }

abbrev edge : RawNode
edge = record {
  name = some "edge4";
  template = none;
  flavor = some "edge-node";
  hostname = none;
  uuid = none;
  ssh_user = none;
  ip = none;
  interfaces =
      some ((record { role = some "mgmt"; mac = some "02:00:00:0E:62:A4"; count = none }) ∷ []);
  mgmt_mac = none;
  storage_mac = none;
  migration_mac = none;
  service1_mac = none;
  service2_mac = none;
}

abbrev cabled : RawNode
cabled = record edge { ip = some "192.168.122.34"; mgmt_mac = some "02:00:00:0E:62:A4" }

abbrev node_template : Template
node_template = record { flavor = none; ssh_user = none; hostname_pattern = none; interfaces = [] }

render_node-IsRendered_example :
    IsRendered edge (render_node py renderer "lab" (("edge-node", node_template) ∷ []) 0 edge)
render_node-IsRendered_example =
    render_node-IsRendered py renderer "lab" (("edge-node", node_template) ∷ []) 0 edge

fragments-dhcp_hosts_example : fragments (cabled ∷ []) ≡ map host_line (dhcp_hosts (cabled ∷ []))
unfolding is_empty
fragments-dhcp_hosts_example = fragments-dhcp_hosts (cabled ∷ []) refl

cabled_line :
    map host_line (dhcp_hosts (cabled ∷ []))
    ≡ "mac='02:00:00:0E:62:A4' name='edge4' ip='192.168.122.34'" ∷ []
unfolding dhcp_hosts dhcp_host get_mac or_none is_empty string_eq
cabled_line = refl

unplugged_line : fragments (edge ∷ []) ≡ []
unfolding dhcp_host_fragment or_none
unplugged_line = refl
