-- ===== src/Planning/Moving.antt =====
-- What `apply_to_topology` of rodeo/instances.py makes of a topology.
use rodeo_cli.Base.{
  ◌≡◌, refl, sym, ℕ, suc, pos, String, ◌<>◌, Option, some, List, [], ◌∷◌, map, ok, ok-injective,
  ◌>>=◌, bind-ok, nat_eq,
}
use rodeo_cli.Portal.Python.{Python}
use rodeo_cli.Planning.Instances.{
  Network, Node, Topology, shift_key, shift_ip, shift_mac, set_key, shift_port, shift_node,
  shift_nodes, default, network_name, bridge_name, domain_name, apply_to_topology,
}
use rodeo_cli.Planning.Shifted.{
  suc-ne-zero, IsKey, IsIp, IsCidr, IsMac, AreMacs, AreStrided, map-AreStrided, shift_ip-IsIp,
  shift_cidr-IsCidr, shift_mac-IsMac, shift_key-IsKey, set_key-IsKey, map-AreMacs,
}

module _ (py : Python) (net : Network py) (n : ℕ) where
  -- Each node has its own address moved, and the MACs that are its own.
  abbrev pub AreMoved : List Node → List Node → Type 0
  AreMoved [] [] = Unit
  AreMoved (a ∷ xs) (b ∷ ys) =
      IsKey (IsIp py net n) a.ip b.ip
      × IsKey (IsMac py net n) a.mgmt_mac b.mgmt_mac
      × AreMacs py net n a.interfaces b.interfaces
      × AreMoved xs ys
  AreMoved _ _ = ⊥

  shift_nodes-AreMoved : (xs ys : List Node) → shift_nodes py net n xs ≡ ok ys → AreMoved xs ys
  unfolding shift_nodes shift_node
  shift_nodes-AreMoved [] ys h = let e : [] ≡ ys = ok-injective h in rw (sym e) tt
  shift_nodes-AreMoved (a ∷ xs) ys h =
      let made : Option String → Node = λ ip. record {
        ip = ip;
        mgmt_mac = set_key (λ s. shift_mac py net s n) a.mgmt_mac;
        interfaces = map (set_key (λ s. shift_mac py net s n)) a.interfaces;
      } in
      let (b, p, q) =
        bind-ok (shift_node py net n a) (λ b. shift_nodes py net n xs >>= λ cs. ok (b ∷ cs)) ys h in
      let (cs, r, s) = bind-ok (shift_nodes py net n xs) (λ cs. ok (b ∷ cs)) ys q in
      let (ip, t, u) = bind-ok (shift_key (λ s. shift_ip py s n) a.ip) (λ ip. ok (made ip)) b p in
      let rest = shift_nodes-AreMoved xs cs r in
      let e : (b ∷ cs) ≡ ys = ok-injective s in
      let f : made ip ≡ b = ok-injective u in
      rw (sym e, sym f)
        (
          shift_key-IsKey py net n _ (IsIp py net n) (shift_ip-IsIp py net n) a.ip ip t,
          set_key-IsKey py net n _ (IsMac py net n) (shift_mac-IsMac py net n) a.mgmt_mac,
          map-AreMacs py net n a.interfaces,
          rest,
        )

  -- What holds of a topology that was moved.
  pub record IsMoved (stride : ℕ) (before after : Topology) : Type 0 where
    pub name : after.name ≡ some ("rodeo-i" <> py.str (pos n))
    pub bridge : after.bridge ≡ some ("rbr" <> py.str (pos n))
    pub domain :
        after.domain ≡ some ("i" <> (py.str (pos n) <> ("." <> default "rodeo.lab" before.domain)))
    pub cidr : IsKey (IsCidr py net n) before.cidr after.cidr
    pub gateway : IsKey (IsIp py net n) before.gateway after.gateway
    pub range_start : IsKey (IsIp py net n) before.range_start after.range_start
    pub range_end : IsKey (IsIp py net n) before.range_end after.range_end
    pub nodes : AreMoved before.nodes after.nodes
    pub ports : AreStrided n stride before.host_ports after.host_ports

-- For an instance other than 0, a topology that apply_to_topology returns has the names of the
-- instance; each address of the network and of each node, none left out, has its third number moved
-- by the instance's number, with 255 at most; the network is a /24 or smaller; each MAC of six parts
-- has the number as its third; and each port that is not 0 is moved by as many strides.
pub apply_to_topology-IsMoved :
    (py : Python) (net : Network py) (before after : Topology) (m stride : ℕ)
    → apply_to_topology py net before (suc m) stride ≡ ok after
    → IsMoved py net (suc m) stride before after
unfolding apply_to_topology network_name bridge_name domain_name
apply_to_topology-IsMoved py net before after m stride h =
    let (cidr, p, h1) = bind-ok _ _ after h in
    let (gateway, q, h2) = bind-ok _ _ after h1 in
    let (low, r, h3) = bind-ok _ _ after h2 in
    let (high, s, h4) = bind-ok _ _ after h3 in
    let (nodes, t, h5) = bind-ok _ _ after h4 in
    let made : Topology = record {
      name = some (network_name py (suc m) (default "default" before.name));
      bridge = some (bridge_name py (suc m) (default "virbr0" before.bridge));
      domain = some (domain_name py (suc m) (default "rodeo.lab" before.domain));
      cidr = cidr;
      gateway = gateway;
      range_start = low;
      range_end = high;
      nodes = nodes;
      host_ports = map (shift_port (suc m) stride) before.host_ports;
    } in
    let e : made ≡ after = ok-injective h5 in
    rw (sym e) (record {
      name = rw (suc-ne-zero m) refl;
      bridge = rw (suc-ne-zero m) refl;
      domain = rw (suc-ne-zero m) refl;
      cidr =
          shift_key-IsKey py net (suc m) _ _ (shift_cidr-IsCidr py net (suc m)) before.cidr cidr p;
      gateway =
          shift_key-IsKey py net (suc m) _ _ (shift_ip-IsIp py net (suc m)) before.gateway gateway
            q;
      range_start =
          shift_key-IsKey py net (suc m) _ _ (shift_ip-IsIp py net (suc m)) before.range_start low
            r;
      range_end =
          shift_key-IsKey py net (suc m) _ _ (shift_ip-IsIp py net (suc m)) before.range_end high s;
      nodes = shift_nodes-AreMoved py net (suc m) before.nodes nodes t;
      ports = map-AreStrided (suc m) stride before.host_ports;
    })
