-- ===== src/Fleet/Hosts.antt =====
-- The hosts that rodeo/fleet/inventory.py reads: each is usable, and no two have one id.
use rodeo_cli.Base.{
  ◌≡◌, refl, ℕ, suc, String, Bool, true, false, not, ◌&&◌, List, [], ◌∷◌, ok, ◌==◌, string_eq,
  contains, arith, bind-ok, refuse-ok, ok-carries,
}
use rodeo_cli.Base.Lists.{all, all_weaken}
use rodeo_cli.Base.Rows.{has, is_unique}
use rodeo_cli.Base.Dict.{Dict}
use rodeo_cli.Portal.Python.{Python}
use rodeo_cli.Portal.Text.{is_empty, matches_lab_id}
use rodeo_cli.Config.Value.{Value}
use rodeo_cli.Fleet.Inventory.{FleetHost}
use rodeo_cli.Fleet.Loading.{is_nil, parse_host, parse_hosts}

-- An id that is safe in file names and is not the portal's, and an address.
abbrev pub is_host_ok : FleetHost → Bool
is_host_ok h = matches_lab_id h.id && not (h.id == "portal") && not (is_empty h.ssh)

abbrev pub host_id : FleetHost → String
host_id h = h.id

abbrev pub is_fresh : List String → FleetHost → Bool
is_fresh seen h = is_host_ok h && not (contains seen h.id)

-- Each host is usable, the ids are new and differ, and there are none just where there were none.
abbrev pub AreFresh : List String → Bool → List FleetHost → Type 0
AreFresh seen empty hosts =
    (all (is_fresh seen) hosts ≡ true) × (is_unique host_id hosts ≡ true) × (is_nil hosts ≡ empty)

has-fresh :
    (seen : List String) (k : String) (hosts : List FleetHost)
    → all (is_fresh (k ∷ seen)) hosts ≡ true
    → has host_id k hosts ≡ false
unfolding has
has-fresh seen k [] h = refl
has-fresh seen k (x ∷ hosts) h = ground (arith, has-fresh seen k hosts)

module _ (py : Python) where
  parse_host-is_host_ok :
      (i : ℕ) (seen : List String) (entry : Dict Value) (h : FleetHost)
      → parse_host py i seen entry ≡ ok h
      → (is_host_ok h ≡ true) × (contains seen h.id ≡ false)
  unfolding parse_host
  parse_host-is_host_ok i seen entry h e =
      let (a, e1) = refuse-ok _ _ _ h e in
      let (b, e2) = refuse-ok _ _ _ h e1 in
      let (c, e3) = refuse-ok _ _ _ h e2 in
      let (d, e4) = refuse-ok _ _ _ h e3 in
      let (f, e5) = refuse-ok _ _ _ h e4 in
      let (labels, g, e6) = bind-ok _ _ h e5 in
      ok-carries (λ h. (is_host_ok h ≡ true) × (contains seen h.id ≡ false)) e6 (ground arith, b)

  pub parse_hosts-AreFresh :
      (i : ℕ) (seen : List String) (entries : List Value) (hosts : List FleetHost)
      → parse_hosts py i seen entries ≡ ok hosts
      → AreFresh seen (is_nil entries) hosts
  unfolding parse_hosts is_unique is_nil
  parse_hosts-AreFresh i seen [] hosts e = ok-carries (AreFresh seen true) e (refl, refl, refl)
  parse_hosts-AreFresh i seen (v ∷ r) hosts e =
      let (entry, _, e1) = bind-ok _ _ hosts e in
      let (h, p, e2) = bind-ok _ _ hosts e1 in
      let (rest, q, e3) = bind-ok _ _ hosts e2 in
      let (good, new) = parse_host-is_host_ok i seen entry h p in
      let (fresh, unique, _) = parse_hosts-AreFresh (suc i) (h.id ∷ seen) r rest q in
      let known = has-fresh seen h.id rest fresh in
      let older =
        all_weaken (is_fresh (h.id ∷ seen)) (is_fresh seen) rest (λ x a. ground arith) fresh in
      ok-carries (AreFresh seen false) e3 (ground arith, ground arith, refl)
