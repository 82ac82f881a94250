-- ===== src/Fleet/WellFormed.antt =====
-- What load_inventory of rodeo/fleet/inventory.py promises of an inventory that it returns.
use rodeo_cli.Base.{
  ◌≡◌, refl, sym, ap, ℕ, ◌≤◌, ℤ, pos, negsuc, ltb_ℤ, String, Bool, true, false, not, ◌&&◌, ◌||◌,
  Option, none, some, [], ◌∷◌, ok, ok-injective, err-ne-ok, ◌==◌, string_eq, contains,
  if◌then◌else◌, arith, bind-ok, refuse-ok, ok-carries, refuse-false, Ensures, Ensures_elim,
  Ensures-ok, Ensures-bind, Ensures-refuse, Ensures-err, Ensures-if,
}
use mathlib.Core.Option.{some-injective}
use rodeo_cli.Base.Lists.{all, all_weaken}
use rodeo_cli.Base.Rows.{is_unique}
use rodeo_cli.Base.Dict.{Dict}
use rodeo_cli.Portal.Python.{Python}
use rodeo_cli.Portal.Text.{is_empty, matches_guide_url}
use rodeo_cli.Config.Value.{Value, as_int, is_null, get}
use rodeo_cli.Config.Source.{Environment}
use rodeo_cli.Fleet.Inventory.{PortalConfig, FleetInventory, student_access}
use rodeo_cli.Fleet.Hostname.{matches_hostname}
use rodeo_cli.Fleet.PortalBlock.{
  Disk, portal_modes, some_not, is_none, parse_mode, parse_hostname, parse_code_letters,
  parse_guide_url, check_enabled, parse_fields, parse_portal, demand,
}
use rodeo_cli.Fleet.Loading.{
  targets, is_port, add_port, ports_of, in_range, is_nil, parse_lab_dir, parse_target,
  parse_concurrency, parse_ui_ports, parse_inventory, load_inventory,
}
use rodeo_cli.Fleet.Hosts.{is_host_ok, is_fresh, host_id, parse_hosts-AreFresh}

abbrev pub IsBetween : ℕ → ℕ → ℤ → Type 0
IsBetween lo hi (pos n) = (lo ≤ n) × (n ≤ hi)
IsBetween lo hi (negsuc n) = ⊥

abbrev pub are_ports : Dict ℤ → Bool
are_ports d = all (λ f. is_port f.1) d

-- What a portal block needs, given the provider.
pub record IsPortal (py : Python) (disk : Disk) (provider : Option (Dict Value)) (p : PortalConfig)
    : Type 0 where
  pub mode : contains portal_modes p.mode ≡ true
  pub letters : IsBetween 4 8 p.code_letters
  pub guide : is_empty p.guide_url || matches_guide_url p.guide_url ≡ true
  pub name : some_not (λ s. is_empty s || matches_hostname s) p.hostname ≡ false
  -- An enabled portal has its roster, and its students reach the labs.
  pub roster : p.enabled && some_not disk.is_file p.roster ≡ false
  pub listed : p.enabled && p.mode == "roster" && is_none p.roster ≡ false
  pub access :
      p.enabled && not (is_none provider) && not (student_access py provider == "open") ≡ false

abbrev pub PortalHolds : Python → Disk → Option (Dict Value) → Option PortalConfig → Type 0
PortalHolds py disk provider none = Unit
PortalHolds py disk provider (some p) = IsPortal py disk provider p

pub record IsWellFormed (py : Python) (disk : Disk) (inv : FleetInventory) : Type 0 where
  pub hosts : all is_host_ok inv.hosts ≡ true
  pub ids : is_unique host_id inv.hosts ≡ true
  pub some_source : is_nil inv.hosts && is_none inv.provider ≡ false
  pub dir : is_empty inv.lab_dir ≡ false
  pub target : contains targets inv.lab_target ≡ true
  pub concurrency : IsBetween 1 64 inv.deploy_concurrency
  pub ports : are_ports inv.ui_ports ≡ true
  pub portal : PortalHolds py disk inv.provider inv.portal

between : (lo hi : ℕ) (c : ℤ) → (ltb_ℤ c (pos lo) || ltb_ℤ (pos hi) c) ≡ false → IsBetween lo hi c
between lo hi (pos n) h = (ground arith, ground arith)
between lo hi (negsuc n) h = ground arith

if-some :
    {A : Type 0} (b : Bool) (a c : A) → (if b then some a else none) ≡ some c → (b ≡ true) × (a ≡ c)
if-some true a c h = (refl, some-injective a c h)
if-some false a c h = cc

add_port-are_ports :
    (k : String) (o : Option ℤ) (r : Option (Dict ℤ)) (ports : Dict ℤ)
    → ((d : Dict ℤ) → r ≡ some d → are_ports d ≡ true)
    → add_port k o r ≡ some ports
    → are_ports ports ≡ true
unfolding add_port
add_port-are_ports k none r ports w h = cc
add_port-are_ports k (some i) none ports w h = cc
add_port-are_ports k (some i) (some r) ports w h =
    let (p, e) = if-some (is_port i) ((k, i) ∷ r) ports h in
    rw (sym e) (ground (arith, p, w r refl))

ports_of-are_ports :
    (d : Dict Value) (ports : Dict ℤ) → ports_of d ≡ some ports → are_ports ports ≡ true
unfolding ports_of
ports_of-are_ports [] ports h = let e : [] ≡ ports = some-injective _ _ h in rw (sym e) refl
ports_of-are_ports ((k, v) ∷ d) ports h =
    add_port-are_ports k (as_int v) (ports_of d) ports (λ r e. ports_of-are_ports d r e) h

module _ (py : Python) where
  parse_lab_dir-ok :
      (lab : Dict Value) (s : String) → parse_lab_dir py lab ≡ ok s → is_empty s ≡ false
  unfolding parse_lab_dir
  parse_lab_dir-ok lab s h =
      let (a, e) = refuse-ok _ _ _ s h in ok-carries (λ s. is_empty s ≡ false) e a

  parse_target-ok :
      (lab : Dict Value) (s : String) → parse_target py lab ≡ ok s → contains targets s ≡ true
  unfolding parse_target
  parse_target-ok lab s h =
      let (a, e) = refuse-ok _ _ _ s h in
      ok-carries (λ s. contains targets s ≡ true) e (ground arith)

  parse_concurrency-ok :
      (lab : Dict Value) (c : ℤ) → parse_concurrency py lab ≡ ok c → IsBetween 1 64 c
  unfolding parse_concurrency in_range
  parse_concurrency-ok lab c h =
      let (n, _, e1) = bind-ok _ _ c h in
      let (a, e2) = refuse-ok _ _ _ c e1 in
      ok-carries (λ c. IsBetween 1 64 c) e2 (between 1 64 n (ground arith))

  demand-ok : {A : Type 0} (m : String) (o : Option A) (a : A) → demand m o ≡ ok a → o ≡ some a
  unfolding demand
  demand-ok m none a h = absurd (err-ne-ok h)
  demand-ok m (some b) a h = ap some (ok-injective h)

  parse_ui_ports-ok :
      (v : Value) (ports : Dict ℤ) → parse_ui_ports py v ≡ ok ports → are_ports ports ≡ true
  unfolding parse_ui_ports
  parse_ui_ports-ok v ports h =
      let (d, _, e) = bind-ok _ _ ports h in ports_of-are_ports d ports (demand-ok _ _ ports e)

  module _ (disk : Disk) (base : String) (provider : Option (Dict Value)) where
    parse_mode-ok :
        (raw : Dict Value) (s : String)
        → parse_mode py disk base provider raw ≡ ok s
        → contains portal_modes s ≡ true
    unfolding parse_mode
    parse_mode-ok raw s h =
        let (a, e) = refuse-ok _ _ _ s h in
        ok-carries (λ s. contains portal_modes s ≡ true) e (ground arith)

    parse_hostname-ok :
        (raw : Dict Value) (o : Option String)
        → parse_hostname py disk base provider raw ≡ ok o
        → some_not (λ s. is_empty s || matches_hostname s) o ≡ false
    unfolding parse_hostname
    parse_hostname-ok raw o h =
        let (a, e) = refuse-ok _ _ _ o h in
        ok-carries (λ o. some_not (λ s. is_empty s || matches_hostname s) o ≡ false) e a

    parse_guide_url-ok :
        (raw : Dict Value) (s : String)
        → parse_guide_url py disk base provider raw ≡ ok s
        → is_empty s || matches_guide_url s ≡ true
    unfolding parse_guide_url
    parse_guide_url-ok raw s h =
        let (a, e) = refuse-ok _ _ _ s h in
        ok-carries (λ s. is_empty s || matches_guide_url s ≡ true) e (ground arith)

    parse_code_letters-ok :
        (raw : Dict Value) (c : ℤ)
        → parse_code_letters py disk base provider raw ≡ ok c
        → IsBetween 4 8 c
    unfolding parse_code_letters
    parse_code_letters-ok raw c h =
        let (n, _, e1) = bind-ok _ _ c h in
        let (a, e2) = refuse-ok _ _ _ c e1 in ok-carries (λ c. IsBetween 4 8 c) e2 (between 4 8 n a)

    parse_fields-IsPortal :
        (raw : Dict Value) (p : PortalConfig)
        → parse_fields py disk base provider raw ≡ ok p
        → IsPortal py disk provider p
    unfolding parse_fields check_enabled
    parse_fields-IsPortal raw p h =
        let (mode, m, e1) = bind-ok _ _ p h in
        let (_, c, e2) = bind-ok _ _ p e1 in
        let (hostname, n, e3) = bind-ok _ _ p e2 in
        let (letters, l, e4) = bind-ok _ _ p e3 in
        let (guide, g, e5) = bind-ok _ _ p e4 in
        let (r, c1) = refuse-ok _ _ _ tt c in
        let (s, c2) = refuse-ok _ _ _ tt c1 in
        ok-carries (IsPortal py disk provider) e5 (record {
          mode = parse_mode-ok raw mode m;
          letters = parse_code_letters-ok raw letters l;
          guide = parse_guide_url-ok raw guide g;
          name = parse_hostname-ok raw hostname n;
          roster = r;
          listed = s;
          access = refuse-false _ _ c2;
        })

    parse_portal-PortalHolds :
        (raw : Value)
        → Ensures (PortalHolds py disk provider) (parse_portal py disk base provider raw)
    unfolding parse_portal
    parse_portal-PortalHolds raw =
        let P = PortalHolds py disk provider in
        Ensures-if P (is_null raw) (Ensures-ok P tt) (
          Ensures-bind P
            (λ d _. Ensures-bind P (λ p read. Ensures-ok P (parse_fields-IsPortal d p read))))

module _ (py : Python) (disk : Disk) (env : Environment) (release : Option String) where
  parse_inventory-IsWellFormed :
      (p : String) (raw : Dict Value)
      → Ensures (IsWellFormed py disk) (parse_inventory py disk env release p raw)
  unfolding parse_inventory
  parse_inventory-IsWellFormed p raw =
      let P = IsWellFormed py disk in
      Ensures-bind P (λ lab _. Ensures-bind P (λ lab_dir dir. Ensures-bind P (λ target known.
        Ensures-bind P (λ concurrency few. Ensures-bind P (λ ports _. Ensures-bind P (λ harvester _.
          Ensures-bind P (λ rancher _. Ensures-bind P (λ source _. Ensures-bind P (λ components _.
            Ensures-bind P (λ secrets _. Ensures-bind P (λ ui_ports are.
              Ensures-bind P (λ defaults _. Ensures-bind P (λ provider _.
                Ensures-bind P (λ entries _. Ensures-refuse P _ _ _ (λ some_source.
                  Ensures-bind P (λ hosts read. Ensures-bind P (λ portal block.
                    let (fresh, unique, empty) = parse_hosts-AreFresh py 0 [] entries hosts read in
                    Ensures-ok P (record {
                      hosts = all_weaken (is_fresh []) is_host_ok hosts (λ x a. ground arith) fresh;
                      ids = unique;
                      some_source = rw (empty) some_source;
                      dir = parse_lab_dir-ok py lab lab_dir dir;
                      target = parse_target-ok py lab target known;
                      concurrency = parse_concurrency-ok py lab concurrency few;
                      ports = parse_ui_ports-ok py (get "ui_ports" lab) ui_ports are;
                      portal =
                          Ensures_elim (PortalHolds py disk provider) _
                            (parse_portal-PortalHolds py disk (disk.parent p) provider
                              (get "portal" raw))
                            portal block;
                    }))))))))))))))))))

-- Every inventory that load_inventory returns is well-formed: its hosts have distinct ids that are
-- safe in file names and are not the portal's, and an address each; there are hosts or a provider;
-- the target is known, the concurrency from 1 to 64, the extra ports are ports; and an enabled
-- portal has a roster where its mode needs one, on a file that is there, and students who may
-- reach the labs.
pub load_inventory-IsWellFormed :
    (py : Python) (disk : Disk) (env : Environment) (release : Option String) (p : String)
    (inv : FleetInventory)
    → load_inventory py disk env release p ≡ ok inv
    → IsWellFormed py disk inv
unfolding load_inventory
load_inventory-IsWellFormed py disk env release p inv h =
    let P = IsWellFormed py disk in
    Ensures_elim P (load_inventory py disk env release p)
      (Ensures-if P (not (disk.is_file p)) (Ensures-err P _) (
        Ensures-bind P (λ v _.
          Ensures-bind P (λ raw _. parse_inventory-IsWellFormed py disk env release p raw))))
      inv h
