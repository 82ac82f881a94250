-- ===== src/Planning/Instances.antt =====
-- Several instances of one lab on a host (rodeo/instances.py): addresses, names and ports moved by
-- the instance's number. `ipaddress.ip_network` and `f"{n:02X}"` are parameters, as are int and str.
use Prim.Native.Char.{code}
use rodeo_cli.Base.{
  ℕ, zero, suc, ◌+◌, ◌-◌, ◌*◌, ℤ, pos, negsuc, String, ◌<>◌, Option, none, some, List, [], ◌∷◌, map,
  Outcome, ok, err, ◌==◌, nat_eq, ltb, ltb_ℤ, if◌then◌else◌, ◌>>=◌,
}
use rodeo_cli.Portal.Python.{Python}
use rodeo_cli.Portal.Text.{is_empty}

pub data ShiftError : Type 0 where
  config_error : String → ShiftError
  value_error : ShiftError

-- The network address and the length of the prefix, where the text names a network.
pub record Network (py : Python) : Type 0 where
  pub ip_network : String → Option (String × ℕ)
  pub hex2 : ℕ → String

-- s.split(c)
unfoldable pub split_on : ℕ → String → List String
split_on c String.[] = "" ∷ []
split_on c (String.◌∷◌ d s) =
    if code d == c
    then "" ∷ split_on c s
    else (elim (split_on c s) [ [] ↦ String.◌∷◌ d "" ∷ [] | p ∷ ps ↦ String.◌∷◌ d p ∷ ps ])

-- sep.join(parts)
unfoldable pub join : String → List String → String
join sep [] = ""
join sep (p ∷ []) = p
join sep (p ∷ q ∷ ps) = p <> (sep <> join sep (q ∷ ps))

unfoldable pub add_nat : ℤ → ℕ → ℤ
add_nat (pos a) n = pos (a + n)
add_nat (negsuc a) n = if ltb a n then pos (n - suc a) else negsuc (a - n)

module _ (py : Python) where
  -- [int(o) for o in parts]
  unfoldable pub ints : List String → Option (List ℤ)
  ints [] = some []
  ints (p ∷ ps) = elim (py.int p) [
    | none ↦ none
    | some i ↦ elim (ints ps) [ none ↦ none | some is ↦ some (i ∷ is) ]
  ]

  abbrev cannot_shift : String → ℕ → ShiftError
  cannot_shift ip n =
      config_error
        ("instance " <> (py.str (pos n) <> (": can't shift " <> (ip <> " into a valid /24"))))

  unfoldable pub shift_octets : String → ℕ → List ℤ → Outcome ShiftError String
  shift_octets ip n (a ∷ b ∷ c ∷ d ∷ []) =
      if ltb_ℤ (pos 255) (add_nat c n)
      then err (cannot_shift ip n)
      else ok (join "." (map py.str (a ∷ b ∷ add_nat c n ∷ d ∷ [])))
  shift_octets ip n _ = err (cannot_shift ip n)

  unfoldable pub shift_ip : String → ℕ → Outcome ShiftError String
  shift_ip ip n = elim (ints (split_on 46 ip)) [
    | none ↦ err value_error
    | some octets ↦ shift_octets ip n octets
  ]

  module _ (net : Network py) where
    unfoldable pub shift_cidr : String → ℕ → Outcome ShiftError String
    shift_cidr cidr n = elim (net.ip_network cidr) [
      | none ↦ err value_error
      | some (address, prefixlen) ↦
          if ltb prefixlen 24
          then err (
              config_error (
                "instance "
                <> (py.str (pos n)
                    <> (": network " <> (cidr <> " must be a /24 (or smaller) to be shifted")))))
          else (elim (shift_ip address n) [
            | err e ↦ err e
            | ok ip ↦ ok (ip <> ("/" <> py.str (pos prefixlen)))
          ])
    ]

    -- Other than six parts: the text as it is.
    unfoldable pub set_third : String → ℕ → List String → String
    set_third mac n (a ∷ b ∷ c ∷ d ∷ e ∷ f ∷ []) = join ":" (a ∷ b ∷ net.hex2 n ∷ d ∷ e ∷ f ∷ [])
    set_third mac n _ = mac

    unfoldable pub shift_mac : String → ℕ → String
    shift_mac mac n = set_third mac n (split_on 58 mac)

  unfoldable pub network_name : ℕ → String → String
  network_name n base = if n == 0 then base else "rodeo-i" <> py.str (pos n)

  unfoldable pub bridge_name : ℕ → String → String
  bridge_name n base = if n == 0 then base else "rbr" <> py.str (pos n)

  unfoldable pub domain_name : ℕ → String → String
  domain_name n base = if n == 0 then base else "i" <> (py.str (pos n) <> ("." <> base))

-- The keys of a topology that an instance moves; a missing key is `none`.
pub record Node : Type 0 where
  pub ip : Option String
  pub mgmt_mac : Option String
  pub interfaces : List (Option String)

pub record Topology : Type 0 where
  pub name : Option String
  pub bridge : Option String
  pub domain : Option String
  pub cidr : Option String
  pub gateway : Option String
  pub range_start : Option String
  pub range_end : Option String
  pub nodes : List Node
  pub host_ports : List (Option ℕ)

abbrev pub default : String → Option String → String
default d none = d
default d (some s) = s

-- `if x.get(key): x[key] = f(x[key])`, where f may raise.
unfoldable pub shift_key :
    (String → Outcome ShiftError String) → Option String → Outcome ShiftError (Option String)
shift_key f none = ok none
shift_key f (some s) =
    if is_empty s then ok (some s) else (elim (f s) [ err e ↦ err e | ok t ↦ ok (some t) ])

unfoldable pub set_key : (String → String) → Option String → Option String
set_key f none = none
set_key f (some s) = if is_empty s then some s else some (f s)

unfoldable pub shift_port : ℕ → ℕ → Option ℕ → Option ℕ
shift_port n stride none = none
shift_port n stride (some p) = if p == 0 then some 0 else some (p + n * stride)

module _ (py : Python) (net : Network py) where
  unfoldable pub shift_node : ℕ → Node → Outcome ShiftError Node
  shift_node n node = do
    ip ← shift_key (λ s. shift_ip py s n) node.ip
    ok (record {
      ip = ip;
      mgmt_mac = set_key (λ s. shift_mac py net s n) node.mgmt_mac;
      interfaces = map (set_key (λ s. shift_mac py net s n)) node.interfaces;
    })

  unfoldable pub shift_nodes : ℕ → List Node → Outcome ShiftError (List Node)
  shift_nodes n [] = ok []
  shift_nodes n (node ∷ nodes) = do
    first ← shift_node n node
    rest ← shift_nodes n nodes
    ok (first ∷ rest)

  unfoldable pub apply_to_topology : Topology → ℕ → ℕ → Outcome ShiftError Topology
  apply_to_topology t zero stride = ok t
  apply_to_topology t (suc m) stride = do
    let n = suc m
    cidr ← shift_key (λ s. shift_cidr py net s n) t.cidr
    gateway ← shift_key (λ s. shift_ip py s n) t.gateway
    range_start ← shift_key (λ s. shift_ip py s n) t.range_start
    range_end ← shift_key (λ s. shift_ip py s n) t.range_end
    nodes ← shift_nodes n t.nodes
    ok (record {
      name = some (network_name py n (default "default" t.name));
      bridge = some (bridge_name py n (default "virbr0" t.bridge));
      domain = some (domain_name py n (default "rodeo.lab" t.domain));
      cidr = cidr;
      gateway = gateway;
      range_start = range_start;
      range_end = range_end;
      nodes = nodes;
      host_ports = map (shift_port n stride) t.host_ports;
    })
