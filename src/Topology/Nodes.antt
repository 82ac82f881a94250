-- ===== src/Topology/Nodes.antt =====
-- How rodeo/inventory.py renders a node: names, flavors, addresses and MACs that the definition
-- leaves out. The keys that the code reads are fields, none where the key is missing; other keys are
-- copied as they are. uuid5, str.format and f"{n:X}" are parameters.
use Prim.Native.Char.{code}
use rodeo_cli.Base.{
  ℕ, zero, suc, ◌+◌, ◌*◌, pos, String, ◌<>◌, Bool, ◌&&◌, Option, none, some, List, [], ◌∷◌, ◌++◌,
  ◌==◌, nat_eq, string_eq, if◌then◌else◌,
}
use rodeo_cli.Base.Dict
use rodeo_cli.Base.Dict.{Dict}
use rodeo_cli.Portal.Python.{Python}
use rodeo_cli.Portal.Text.{is_empty, prefix}
use rodeo_cli.Config.Substring.{after_prefix}
use rodeo_cli.Fleet.Inventory.{or_none}

pub record Iface : Type 0 where
  pub role : Option String
  pub mac : Option String
  pub count : Option ℕ

pub record RawNode : Type 0 where
  pub name : Option String
  pub template : Option String
  pub flavor : Option String
  pub hostname : Option String
  pub uuid : Option String
  pub ssh_user : Option String
  pub ip : Option String
  pub interfaces : Option (List Iface)
  pub mgmt_mac : Option String
  pub storage_mac : Option String
  pub migration_mac : Option String
  pub service1_mac : Option String
  pub service2_mac : Option String

pub record Template : Type 0 where
  pub flavor : Option String
  pub ssh_user : Option String
  pub hostname_pattern : Option String
  pub interfaces : List Iface

-- uuid5 of a name in the DNS name space; pattern.format(name=, label=, index=), none if it raises.
pub record Renderer : Type 0 where
  pub uuid5 : String → String
  pub format : String → String → String → ℕ → Option String
  pub hex : ℕ → String

abbrev pub default : String → Option String → String
default d none = d
default d (some s) = s

-- `x.get(k) or d`
unfoldable pub set_or : String → Option String → String
set_or d none = d
set_or d (some s) = if is_empty s then d else s

unfoldable pub label_of : ℕ → List String → Option String
label_of i [] = none
label_of zero (l ∷ labels) = some l
label_of (suc i) (l ∷ labels) = label_of i labels

abbrev pub labels : List String
labels = "alpha" ∷ "bravo" ∷ "charlie" ∷ "delta" ∷ "echo" ∷ "foxtrot" ∷ []

module _ (py : Python) where
  -- The number that decimal digits name, with a final line feed allowed behind them, as `$` does.
  unfoldable pub digits : ℕ → String → Option ℕ
  digits n String.[] = some n
  digits n (String.◌∷◌ c String.[]) =
      if code c == 10
      then some n
      else (elim (py.decimal c) [ none ↦ none | some d ↦ some (n * 10 + d) ])
  digits n (String.◌∷◌ c s) = elim (py.decimal c) [ none ↦ none | some d ↦ digits (n * 10 + d) s ]

  -- One digit at least.
  unfoldable pub number_of : String → Option ℕ
  number_of String.[] = none
  number_of (String.◌∷◌ c s) = elim (py.decimal c) [ none ↦ none | some d ↦ digits d s ]

  -- The number in a name that _EDGE_NAME_RE matches.
  unfoldable pub edge_number : String → Option ℕ
  unfolding after_prefix number_of digits
  edge_number s = elim (after_prefix "edge" s) [ none ↦ none | some r ↦ number_of r ]

  unfoldable pub generate_mac : String → String → String → ℕ → String
  generate_mac plan node role index =
      let key = plan <> ("-" <> (node <> ("-" <> (role <> ("-" <> py.str (pos index)))))) in
      "02:00:00:0D:62:" <> py.upper (prefix 2 (py.sha256 key))

  module _ (r : Renderer) (plan : String) where
    unfoldable pub generate_uuid : String → String
    generate_uuid name = r.uuid5 ("rodeo-" <> (plan <> ("-" <> name)))

    unfoldable pub edge_mac : String → Option ℕ → String
    edge_mac hashed none = hashed
    edge_mac hashed (some n) = "02:00:00:0E:62:A" <> r.hex n

    unfoldable pub mac_for_iface : String → String → String → ℕ → String
    unfolding generate_mac edge_number edge_mac
    mac_for_iface name flavor role index =
        let hashed = generate_mac plan name role index in
        if role == "mgmt" && flavor == "edge-node"
        then edge_mac hashed (edge_number name)
        else hashed

    unfoldable pub generate_hostname : String → Template → ℕ → String
    generate_hostname name template index =
        let label = default ("node" <> py.str (pos index)) (label_of index labels) in
        default name (r.format (default "{name}" template.hostname_pattern) name label index)

    -- The copies c, c + 1, ... of a blueprint's entry, `left` of them.
    unfoldable pub copies : String → String → Iface → String → Bool → ℕ → ℕ → List Iface
    copies name flavor spec role only c zero = []
    copies name flavor spec role only c (suc left) =
        let iface_role = if only then role else role <> py.str (pos (c + 1)) in
        (record {
          role = some iface_role;
          mac = some (set_or (mac_for_iface name flavor iface_role c) spec.mac);
          count = none;
        })
        ∷ copies name flavor spec role only (suc c) left

    unfoldable pub count_of : Option ℕ → ℕ
    count_of none = 1
    count_of (some n) = n

    unfoldable pub from_blueprint : String → String → ℕ → List Iface → List Iface
    unfolding copies count_of
    from_blueprint name flavor i [] = []
    from_blueprint name flavor i (spec ∷ specs) =
        copies name flavor spec (default ("nic" <> py.str (pos i)) spec.role)
          (count_of spec.count == 1) 0 (count_of spec.count)
        ++ from_blueprint name flavor (suc i) specs

    unfoldable pub fill_macs : String → String → ℕ → List Iface → List Iface
    fill_macs name flavor i [] = []
    fill_macs name flavor i (iface ∷ ifaces) =
        let role = default ("nic" <> py.str (pos i)) iface.role in
        (record iface { mac = some (set_or (mac_for_iface name flavor role i) iface.mac) })
        ∷ fill_macs name flavor (suc i) ifaces

    unfoldable pub edge_ip : String → String → Option String → Option String
    unfolding or_none edge_number
    edge_ip name flavor ip = elim (or_none ip) [
      | some a ↦ ip
      | none ↦ elim (edge_number name) [
        | none ↦ ip
        | some n ↦
            if flavor == "edge-node" then some ("192.168.122." <> py.str (pos (30 + n))) else ip
      ]
    ]

    unfoldable pub interfaces_of : String → String → Template → Option (List Iface) → List Iface
    unfolding from_blueprint fill_macs
    interfaces_of name flavor template none = from_blueprint name flavor 0 template.interfaces
    interfaces_of name flavor template (some ifaces) = fill_macs name flavor 0 ifaces

    abbrev empty : Template
    empty = record { flavor = none; ssh_user = none; hostname_pattern = none; interfaces = [] }

    unfoldable pub render_with : Template → String → ℕ → RawNode → RawNode
    render_with template template_name index raw =
        let name = default ("node" <> py.str (pos index)) raw.name in
        let flavor = default (default template_name template.flavor) raw.flavor in
        record raw {
          name = some name;
          hostname = some (set_or (generate_hostname name template index) raw.hostname);
          uuid = some (set_or (generate_uuid name) raw.uuid);
          flavor = some flavor;
          ssh_user = some (
              default
                (default (if flavor == "harvester" then "rancher" else "root") template.ssh_user)
                raw.ssh_user);
          ip = edge_ip name flavor raw.ip;
          interfaces = some (interfaces_of name flavor template raw.interfaces);
        }

    unfoldable pub template_of : Dict Template → String → Template
    template_of templates name = elim (Dict.lookup name templates) [ none ↦ empty | some t ↦ t ]

    unfoldable pub render_node : Dict Template → ℕ → RawNode → RawNode
    unfolding render_with template_of
    render_node templates index raw =
        let name = set_or (default "harvester" raw.flavor) raw.template in
        render_with (template_of templates name) name index raw

    unfoldable pub render_nodes : Dict Template → ℕ → List RawNode → List RawNode
    unfolding render_node
    render_nodes templates index [] = []
    render_nodes templates index (raw ∷ nodes) =
        render_node templates index raw ∷ render_nodes templates (suc index) nodes
