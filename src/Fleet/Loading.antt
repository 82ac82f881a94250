-- ===== src/Fleet/Loading.antt =====
-- load_inventory of rodeo/fleet/inventory.py: what YAML read becomes an inventory, or is refused.
-- The checks stand in the order of the code; its blocks are functions of their own.
use rodeo_cli.Base.{
  ℕ, suc, ℤ, pos, String, ◌<>◌, Bool, true, false, not, ◌&&◌, ◌||◌, Option, none, some, List, [],
  ◌∷◌, map, Outcome, ok, err, ◌==◌, string_eq, contains, ltb_ℤ, if◌then◌else◌, ◌>>=◌, refuse,
}
use rodeo_cli.Base.Lists.{all}
use rodeo_cli.Base.Dict
use rodeo_cli.Base.Dict.{Dict}
use rodeo_cli.Portal.Python.{Python}
use rodeo_cli.Portal.Text.{is_empty, strip, prefix, matches_lab_id}
use rodeo_cli.Cloud.Catalog.{repr_list}
use rodeo_cli.Config.Value.{
  Value, as_list, as_int, as_dict, is_null, is_true, or_else, get, has_key, mapping_or_empty,
  repr_of, str_of, int_of, text_or, optional_text,
}
use rodeo_cli.Config.Source.{SourceError, Environment, resolve_install_source}
use rodeo_cli.Fleet.Inventory.{LoadError, FleetHost, FleetInventory, lift_int, int_or_refuse}
use rodeo_cli.Fleet.Hostname.{matches_secret_name}
use rodeo_cli.Fleet.PortalBlock.{Disk, is_none, demand, parse_portal}

abbrev config_error : String → LoadError
config_error = LoadError.config_error

unfoldable pub lift_source : {A : Type 0} → Outcome SourceError A → Outcome LoadError A
lift_source (ok a) = ok a
lift_source (err (SourceError.config_error s)) = err (config_error s)

unfoldable pub lift_yaml : String → Outcome String Value → Outcome LoadError Value
lift_yaml p (ok v) = ok v
lift_yaml p (err exc) = err (config_error ("Invalid workshop YAML (" <> (p <> ("): " <> exc))))

abbrev pub targets : List String
targets = "baremetal" ∷ "instruqt" ∷ []

abbrev pub access_modes : List String
access_modes = "open" ∷ "operator" ∷ []

-- The texts of a list of texts.
unfoldable pub texts : List Value → Option (List String)
texts [] = some []
texts (Value.text s ∷ r) = elim (texts r) [ none ↦ none | some l ↦ some (s ∷ l) ]
texts (_ ∷ r) = none

abbrev pub is_port : ℤ → Bool
is_port i = ltb_ℤ (pos 0) i && ltb_ℤ i (pos 65536)

unfoldable pub add_port : String → Option ℤ → Option (Dict ℤ) → Option (Dict ℤ)
add_port k (some i) (some r) = if is_port i then some ((k, i) ∷ r) else none
add_port k _ _ = none

-- The ports of a mapping whose values are ports.
unfoldable pub ports_of : Dict Value → Option (Dict ℤ)
unfolding add_port
ports_of [] = some []
ports_of ((k, v) ∷ d) = add_port k (as_int v) (ports_of d)

unfoldable pub secret_names : Option (List String) → Option (List String)
secret_names none = none
secret_names (some l) = if all matches_secret_name l then some l else none

unfoldable pub is_nil : {A : Type 0} → List A → Bool
is_nil [] = true
is_nil (a ∷ l) = false

unfoldable pub in_range : ℤ → Bool
in_range c = not (ltb_ℤ c (pos 1) || ltb_ℤ (pos 64) c)

module _ (py : Python) where
  unfoldable pub parse_lab_dir : Dict Value → Outcome LoadError String
  parse_lab_dir lab = do
    let lab_dir = strip (text_or py "" (get "dir" lab))
    _ ←
        refuse (is_empty lab_dir)
          (config_error "lab.dir is required (remote path for status/deploy)")
    ok lab_dir

  unfoldable pub parse_target : Dict Value → Outcome LoadError String
  parse_target lab = do
    let target = py.lower (strip (text_or py "baremetal" (get "target" lab)))
    _ ← refuse (not (contains targets target)) (
        config_error
          ("lab.target must be one of " <> (repr_list py targets <> (", got: " <> target))))
    ok target

  unfoldable pub int_or : ℕ → Value → Outcome LoadError ℤ
  int_or n v = lift_int (int_of py (or_else v (Value.int (pos n))))

  unfoldable pub parse_concurrency : Dict Value → Outcome LoadError ℤ
  parse_concurrency lab = do
    c ← int_or 4 (get "concurrency" lab)
    _ ← refuse (not (in_range c)) (config_error "lab.concurrency must be between 1 and 64")
    ok c

  unfoldable pub parse_components : Value → Outcome LoadError (Option (List String))
  parse_components v = if is_null v then ok none else (do
    l ← demand "lab.components must be a list of strings" (as_list v)
    names ← demand "lab.components must be a list of strings" (texts l)
    ok (some (map (λ s. py.lower (strip s)) names)))

  unfoldable pub parse_secrets : Value → Outcome LoadError (List String)
  parse_secrets v = do
    let message : String =
        "lab.operator_secrets must be a list of secret names (letters, digits, _)"
    l ← if is_true v then demand message (as_list v) else ok []
    demand message (secret_names (texts l))

  unfoldable pub parse_ui_ports : Value → Outcome LoadError (Dict ℤ)
  parse_ui_ports v = do
    d ← demand "lab.ui_ports must map UI names to host port numbers" (mapping_or_empty v)
    demand "lab.ui_ports must map UI names to host port numbers" (ports_of d)

  -- `if "count" in provider and provider["count"] is not None`
  unfoldable pub parse_count : Dict Value → Outcome LoadError (Dict Value)
  parse_count p = if is_null (get "count" p) then ok p else (do
    c ← int_or_refuse "provider.count must be an integer" (int_of py (get "count" p))
    _ ← refuse (not (in_range c)) (config_error "provider.count must be between 1 and 64")
    ok (Dict.insert "count" (Value.int c) p))

  unfoldable pub parse_access : Dict Value → Outcome LoadError (Dict Value)
  parse_access p =
      if has_key "student_access" p
      then (do
        let access = py.lower (strip (text_or py "" (get "student_access" p)))
        _ ← refuse (not (contains access_modes access)) (
            config_error (
              "provider.student_access must be one of "
              <> (repr_list py access_modes <> (", got: " <> repr_of py (get "student_access" p)))))
        ok (Dict.insert "student_access" (Value.text access) p))
      else ok p

  unfoldable pub parse_provider : Value → Outcome LoadError (Option (Dict Value))
  parse_provider v = if is_null v then ok none else (do
    d ← demand "provider: must be a mapping" (as_dict v)
    let ptype = py.lower (strip (text_or py "" (get "type" d)))
    _ ← refuse (is_empty ptype) (config_error "provider.type is required when provider: is set")
    counted ← parse_count (Dict.insert "type" (Value.text ptype) d)
    p ← parse_access counted
    ok (some p))

  abbrev place : ℕ → String
  place i = "hosts[" <> (py.str (pos i) <> "]")

  unfoldable pub labels_of : Dict Value → Dict String
  labels_of [] = []
  labels_of ((k, v) ∷ d) = (k, str_of py v) ∷ labels_of d

  unfoldable pub parse_host : ℕ → List String → Dict Value → Outcome LoadError FleetHost
  parse_host i seen entry = do
    let hid = strip (text_or py "" (get "id" entry))
    let ssh = strip (text_or py "" (get "ssh" entry))
    _ ← refuse (is_empty hid) (config_error (place i <> ".id is required"))
    _ ← refuse (contains seen hid) (config_error ("duplicate host id: " <> hid))
    _ ← refuse (not (matches_lab_id hid)) (
        config_error (
          place i
          <> (".id "
              <> (py.repr (prefix 70 hid)
                  <> " must be letters, digits, '.', '_' or '-' (max 63, starting with a letter or digit)"))))
    _ ←
        refuse (hid == "portal")
          (config_error ("host id " <> (py.repr "portal" <> " is reserved for the claim portal")))
    _ ← refuse (is_empty ssh) (config_error (place i <> ".ssh is required (host or user@host)"))
    labels ← demand (place i <> ".labels must be a mapping") (mapping_or_empty (get "labels" entry))
    ok (record {
      id = hid;
      ssh = ssh;
      public_ip =
          if is_true (get "public_ip" entry)
          then some (str_of py (get "public_ip" entry))
          else none;
      labels = labels_of labels;
      ssh_user =
          if is_true (get "ssh_user" entry) then some (str_of py (get "ssh_user" entry)) else none;
    })

  -- The entries from number i on; `seen` holds the ids before them.
  unfoldable pub parse_hosts : ℕ → List String → List Value → Outcome LoadError (List FleetHost)
  parse_hosts i seen [] = ok []
  parse_hosts i seen (v ∷ r) = do
    entry ← demand (place i <> " must be a mapping") (as_dict v)
    host ← parse_host i seen entry
    rest ← parse_hosts (suc i) (host.id ∷ seen) r
    ok (host ∷ rest)

  unfoldable pub host_list : Value → Outcome LoadError (List Value)
  host_list v = if is_null v then ok [] else demand "hosts: must be a list" (as_list v)

  module _ (disk : Disk) (env : Environment) (release : Option String) where
    -- `raw` is the mapping at the top of the file p.
    unfoldable pub parse_inventory : String → Dict Value → Outcome LoadError FleetInventory
    unfolding demand lift_source
    parse_inventory p raw = do
      lab ← demand "lab: must be a mapping" (mapping_or_empty (get "lab" raw))
      lab_dir ← parse_lab_dir lab
      lab_target ← parse_target lab
      concurrency ← parse_concurrency lab
      ports ← demand "lab.ports must be a mapping" (mapping_or_empty (get "ports" lab))
      harvester_port ← int_or 8443 (get "harvester" ports)
      rancher_port ← int_or 30002 (get "rancher" ports)
      source ← lift_source (resolve_install_source py env release lab none)
      components ← parse_components (get "components" lab)
      secrets ← parse_secrets (get "operator_secrets" lab)
      ui_ports ← parse_ui_ports (get "ui_ports" lab)
      defaults ← demand "defaults: must be a mapping" (mapping_or_empty (get "defaults" raw))
      provider ← parse_provider (get "provider" raw)
      entries ← host_list (get "hosts" raw)
      _ ←
          refuse (is_nil entries && is_none provider)
            (config_error "hosts: must be a non-empty list (or set provider: for fleet provision)")
      hosts ← parse_hosts 0 [] entries
      portal ← parse_portal py disk (disk.parent p) provider (get "portal" raw)
      ok (record {
        name = text_or py (disk.stem p) (get "name" raw);
        lab_dir = lab_dir;
        defaults = defaults;
        hosts = hosts;
        lab_source = optional_text py (get "source" lab);
        lab_branch = optional_text py (get "branch" lab);
        lab_profile = optional_text py (get "profile" lab);
        lab_target = lab_target;
        deploy_concurrency = concurrency;
        harvester_ui_port = harvester_port;
        rancher_ui_port = rancher_port;
        install_url = source.0;
        ref = source.1;
        install_url_explicit = not (is_empty (strip (text_or py "" (get "install_url" lab))));
        lab_components = components;
        provider = provider;
        operator_secrets = secrets;
        ui_ports = ui_ports;
        portal = portal;
      })

    -- p is the path, resolved.
    unfoldable pub load_inventory : String → Outcome LoadError FleetInventory
    load_inventory p =
        if not (disk.is_file p)
        then err (config_error ("Workshop inventory not found: " <> p))
        else (do
          v ← lift_yaml p (disk.read_yaml p)
          raw ← demand ("Workshop inventory must be a mapping: " <> p) (mapping_or_empty v)
          parse_inventory p raw)
