-- ===== src/Topology/Rendered.antt =====
-- What a rendered node of rodeo/inventory.py has, and what it keeps of its definition.
use Prim.Native.String.append
use rodeo_cli.Base.{
  ◌≡◌, refl, ap, ℕ, zero, suc, ◌+◌, pos, String, ◌<>◌, Bool, true, false, not, ◌&&◌, Option, none,
  some, List, [], ◌∷◌, ◌==◌, nat_eq, string_eq, if◌then◌else◌, arith, inl, inr, ◌⊎◌, Bool-cases,
}
use rodeo_cli.Base.Lists.{all, all-append}
use rodeo_cli.Base.Dict.{Dict}
use rodeo_cli.Portal.Python.{Python}
use rodeo_cli.Portal.Text.{is_empty}
use rodeo_cli.Fleet.Inventory.{or_none}
use rodeo_cli.Topology.Nodes.{
  Iface, RawNode, Template, Renderer, default, set_or, generate_mac, edge_number, edge_mac,
  mac_for_iface, copies, count_of, from_blueprint, fill_macs, edge_ip, interfaces_of, render_with,
  render_node,
}

-- A text that is there and not empty.
abbrev pub is_given : Option String → Bool
is_given none = false
is_given (some s) = not (is_empty s)

abbrev pub has_mac : Iface → Bool
has_mac i = is_given i.mac

abbrev pub all_plugged : Option (List Iface) → Bool
all_plugged none = false
all_plugged (some l) = all has_mac l

-- The second text is the first, unless that is missing or empty.
abbrev pub Keeps : Option String → Option String → Type 0
Keeps a b = (is_given a ≡ false) ⊎ (a ≡ b)

Keeps-where : (a b : Option String) → (is_given a ≡ true → a ≡ b) → Keeps a b
Keeps-where a b h = elim (Bool-cases (is_given a)) [ inl p ↦ inr (h p) | inr p ↦ inl p ]

-- The interfaces are those of the definition, with the MACs that were given.
abbrev pub AreKept : List Iface → List Iface → Type 0
AreKept [] [] = Unit
AreKept (a ∷ xs) (b ∷ ys) = (a.role ≡ b.role) × Keeps a.mac b.mac × AreKept xs ys
AreKept _ _ = ⊥

set_or-is_given :
    (d : String) (o : Option String) → is_empty d ≡ false → is_given (some (set_or d o)) ≡ true
unfolding set_or
set_or-is_given d none h = ap not h
set_or-is_given d (some s) h = ground arith

set_or_kept : (d : String) (o : Option String) → Keeps o (some (set_or d o))
unfolding set_or
set_or_kept d none = inl refl
set_or_kept d (some s) = Keeps-where _ _ (λ h. ground (arith, h))

if-is_empty :
    (b : Bool) (s t : String)
    → is_empty s ≡ false
    → is_empty t ≡ false
    → is_empty (if b then s else t) ≡ false
if-is_empty true s t p q = p
if-is_empty false s t p q = q

append-is_empty : (s t : String) → is_empty s ≡ false → is_empty (s <> t) ≡ false
unfolding is_empty
append-is_empty String.[] t h = cc
append-is_empty (String.◌∷◌ c s) t h = rw append.cons refl

module _ (py : Python) (r : Renderer) (plan name flavor : String) where
  generate_mac-is_empty :
      (role : String) (index : ℕ) → is_empty (generate_mac py plan name role index) ≡ false
  unfolding generate_mac is_empty
  generate_mac-is_empty role index = append-is_empty _ _ refl

  edge_mac-is_empty :
      (hashed : String) (o : Option ℕ)
      → is_empty hashed ≡ false
      → is_empty (edge_mac py r plan hashed o) ≡ false
  unfolding edge_mac is_empty
  edge_mac-is_empty hashed none h = h
  edge_mac-is_empty hashed (some n) h = append-is_empty _ _ refl

  mac_for_iface-is_empty :
      (role : String) (index : ℕ)
      → is_empty (mac_for_iface py r plan name flavor role index) ≡ false
  unfolding mac_for_iface
  mac_for_iface-is_empty role index =
      if-is_empty (role == "mgmt" && flavor == "edge-node") _ _
        (edge_mac-is_empty _ (edge_number py name) (generate_mac-is_empty role index))
        (generate_mac-is_empty role index)

  copies-all_plugged :
      (spec : Iface) (role : String) (only : Bool) (c left : ℕ)
      → all has_mac (copies py r plan name flavor spec role only c left) ≡ true
  unfolding copies
  copies-all_plugged spec role only c zero = refl
  copies-all_plugged spec role only c (suc left) =
      let iface_role = if only then role else role <> py.str (pos (c + 1)) in
      ground (
        arith,
        set_or-is_given (mac_for_iface py r plan name flavor iface_role c) spec.mac
            (mac_for_iface-is_empty iface_role c),
        copies-all_plugged spec role only (suc c) left,
      )

  from_blueprint-all_plugged :
      (i : ℕ) (specs : List Iface)
      → all has_mac (from_blueprint py r plan name flavor i specs) ≡ true
  unfolding from_blueprint
  from_blueprint-all_plugged i [] = refl
  from_blueprint-all_plugged i (spec ∷ specs) =
      let role = default ("nic" <> py.str (pos i)) spec.role in
      let n = count_of py r plan spec.count in
      let made = copies py r plan name flavor spec role (n == 1) 0 n in
      ground (
        arith,
        all-append has_mac made (from_blueprint py r plan name flavor (suc i) specs),
        copies-all_plugged spec role (n == 1) 0 n,
        from_blueprint-all_plugged (suc i) specs,
      )

  fill_macs-all_plugged :
      (i : ℕ) (l : List Iface) → all has_mac (fill_macs py r plan name flavor i l) ≡ true
  unfolding fill_macs
  fill_macs-all_plugged i [] = refl
  fill_macs-all_plugged i (x ∷ l) =
      let role = default ("nic" <> py.str (pos i)) x.role in
      ground (
        arith,
        set_or-is_given (mac_for_iface py r plan name flavor role i) x.mac
            (mac_for_iface-is_empty role i),
        fill_macs-all_plugged (suc i) l,
      )

  fill_macs-AreKept : (i : ℕ) (l : List Iface) → AreKept l (fill_macs py r plan name flavor i l)
  unfolding fill_macs
  fill_macs-AreKept i [] = tt
  fill_macs-AreKept i (x ∷ l) = (refl, set_or_kept _ x.mac, fill_macs-AreKept (suc i) l)

abbrev KeptIn : Option (List Iface) → Option (List Iface) → Type 0
KeptIn none b = Unit
KeptIn (some a) none = ⊥
KeptIn (some a) (some b) = AreKept a b

-- A node that can be deployed, with what its definition says.
pub record IsRendered (raw n : RawNode) : Type 0 where
  pub name : Keeps raw.name n.name
  pub hostname : Keeps raw.hostname n.hostname
  pub uuid : Keeps raw.uuid n.uuid
  pub flavor : Keeps raw.flavor n.flavor
  pub user : Keeps raw.ssh_user n.ssh_user
  pub ip : Keeps raw.ip n.ip
  pub macs : all_plugged n.interfaces ≡ true
  pub kept : KeptIn raw.interfaces n.interfaces

default_kept : (d : String) (o : Option String) → Keeps o (some (default d o))
default_kept d none = inl refl
default_kept d (some s) = inr refl

edge_ip_kept :
    (py : Python) (r : Renderer) (plan name flavor : String) (o : Option String)
    → Keeps o (edge_ip py r plan name flavor o)
unfolding edge_ip or_none
edge_ip_kept py r plan name flavor none = inl refl
edge_ip_kept py r plan name flavor (some s) = Keeps-where _ _ (λ h. ground (arith, h))

interfaces_of-all_plugged :
    (py : Python) (r : Renderer) (plan name flavor : String) (t : Template)
    (o : Option (List Iface))
    → all has_mac (interfaces_of py r plan name flavor t o) ≡ true
unfolding interfaces_of
interfaces_of-all_plugged py r plan name flavor t none =
    from_blueprint-all_plugged py r plan name flavor 0 t.interfaces
interfaces_of-all_plugged py r plan name flavor t (some l) =
    fill_macs-all_plugged py r plan name flavor 0 l

interfaces_of-KeptIn :
    (py : Python) (r : Renderer) (plan name flavor : String) (t : Template)
    (o : Option (List Iface))
    → KeptIn o (some (interfaces_of py r plan name flavor t o))
unfolding interfaces_of
interfaces_of-KeptIn py r plan name flavor t none = tt
interfaces_of-KeptIn py r plan name flavor t (some l) = fill_macs-AreKept py r plan name flavor 0 l

-- A rendered node has what its definition gives, where that is not empty: its name, host name,
-- UUID, flavor, user, address, and the roles and MACs of its interfaces; and every interface has a
-- MAC.
pub render_node-IsRendered :
    (py : Python) (r : Renderer) (plan : String) (templates : Dict Template) (index : ℕ)
    (raw : RawNode)
    → IsRendered raw (render_node py r plan templates index raw)
unfolding render_node render_with
render_node-IsRendered py r plan templates index raw = record {
  name = default_kept _ raw.name;
  hostname = set_or_kept _ raw.hostname;
  uuid = set_or_kept _ raw.uuid;
  flavor = default_kept _ raw.flavor;
  user = default_kept _ raw.ssh_user;
  ip = edge_ip_kept py r plan _ _ raw.ip;
  macs = interfaces_of-all_plugged py r plan _ _ _ raw.interfaces;
  kept = interfaces_of-KeptIn py r plan _ _ _ raw.interfaces;
}
