-- ===== src/Fleet/Job.antt =====
-- The state of a deployment over hosts, kept beside the inventory (rodeo/fleet/job.py), and the
-- sheet of the labs' addresses (rodeo/fleet/access.py). The time is an argument.
use rodeo_cli.Base.{
  ℤ, pos, String, ◌<>◌, Bool, true, false, Option, none, some, List, [], ◌∷◌, map, Outcome, ok, err,
  ◌==◌, string_eq, contains, if◌then◌else◌, ◌>>=◌,
}
use rodeo_cli.Base.Lists.{keep}
use rodeo_cli.Base.Dict
use rodeo_cli.Base.Dict.{Dict, keys}
use rodeo_cli.Portal.Python.{Python}
use rodeo_cli.Config.Value.{
  Value, IntError, as_dict, dict_of, get, or_else, int_of, mapping_or_empty, text_or,
}
use rodeo_cli.Fleet.Inventory.{LoadError, FleetHost, FleetInventory, lift_int}
use rodeo_cli.Fleet.PortalBlock.{Disk, demand}
use rodeo_cli.Fleet.Loading.{lift_yaml}
use rodeo_cli.Fleet.Selecting.{host_public_ip}

-- HostJobRecord; its state is a text in the file, and the fields that may be None are values.
pub record HostJobRecord : Type 0 where
  pub state : Value
  pub started_at : Value
  pub finished_at : Value
  pub tmux : Value
  pub last_error : Value
  pub detail : Value

pub record FleetJob : Type 0 where
  pub workshop : String
  pub inventory_path : String
  pub started_at : String
  pub concurrency : ℤ
  pub hosts : Dict HostJobRecord
  pub updated_at : Value

abbrev pub pending : HostJobRecord
pending = record {
  state = Value.text "pending";
  started_at = Value.null;
  finished_at = Value.null;
  tmux = Value.null;
  last_error = Value.null;
  detail = Value.null;
}

unfoldable pub record_to_dict : HostJobRecord → Value
unfolding dict_of
record_to_dict r = Value.dict (
    dict_of (
      ("state", r.state)
      ∷ ("started_at", r.started_at)
      ∷ ("finished_at", r.finished_at)
      ∷ ("tmux", r.tmux)
      ∷ ("last_error", r.last_error)
      ∷ ("detail", r.detail)
      ∷ []))

unfoldable pub hosts_to_dict : Dict HostJobRecord → Dict Value
unfolding record_to_dict
hosts_to_dict [] = []
hosts_to_dict ((hid, r) ∷ d) = (hid, record_to_dict r) ∷ hosts_to_dict d

unfoldable pub to_dict : FleetJob → Dict Value
unfolding hosts_to_dict dict_of or_else
to_dict job =
    ("workshop", Value.text job.workshop)
    ∷ ("inventory_path", Value.text job.inventory_path)
    ∷ ("started_at", Value.text job.started_at)
    ∷ ("updated_at", or_else job.updated_at (Value.text job.started_at))
    ∷ ("concurrency", Value.int job.concurrency)
    ∷ ("hosts", Value.dict (dict_of (hosts_to_dict job.hosts)))
    ∷ []

unfoldable pub record_from_dict : Dict Value → HostJobRecord
unfolding get or_else
record_from_dict entry = record {
  state = or_else (get "state" entry) (Value.text "pending");
  started_at = get "started_at" entry;
  finished_at = get "finished_at" entry;
  tmux = get "tmux" entry;
  last_error = get "last_error" entry;
  detail = get "detail" entry;
}

-- A host whose entry is no mapping is left out.
unfoldable pub add_record : String → Option (Dict Value) → Dict HostJobRecord → Dict HostJobRecord
unfolding record_from_dict
add_record hid none d = d
add_record hid (some entry) d = (hid, record_from_dict entry) ∷ d

unfoldable pub hosts_from_dict : Dict Value → Dict HostJobRecord
unfolding add_record as_dict
hosts_from_dict [] = []
hosts_from_dict ((hid, v) ∷ d) = add_record hid (as_dict v) (hosts_from_dict d)

unfoldable pub failed_ids : FleetJob → List String
failed_ids job = keys (keep (λ f. is_failed f.1.state) job.hosts)
  where
    is_failed : Value → Bool
    is_failed (Value.text s) = s == "failed"
    is_failed _ = false

-- `changes` sets the fields that were given.
unfoldable pub set_host : String → (HostJobRecord → HostJobRecord) → String → FleetJob → FleetJob
set_host now changes hid job = record {
  workshop = job.workshop;
  inventory_path = job.inventory_path;
  started_at = job.started_at;
  concurrency = job.concurrency;
  hosts =
      Dict.insert hid (changes (elim (Dict.lookup hid job.hosts) [ none ↦ pending | some r ↦ r ]))
        job.hosts;
  updated_at = Value.text now;
}

-- {hid: HostJobRecord(state="pending") for hid in host_ids}
unfoldable pub pending_hosts : List String → Dict HostJobRecord → Dict HostJobRecord
pending_hosts [] d = d
pending_hosts (hid ∷ ids) d = pending_hosts ids (Dict.insert hid pending d)

unfoldable pub new_job : String → String → ℤ → List String → String → FleetJob
unfolding pending_hosts
new_job workshop inventory_path concurrency host_ids now = record {
  workshop = workshop;
  inventory_path = inventory_path;
  started_at = now;
  concurrency = concurrency;
  hosts = pending_hosts host_ids [];
  updated_at = Value.null;
}

-- What is written, after the time of the update was set.
unfoldable pub save_job : String → FleetJob → Dict Value
unfolding to_dict
save_job now job = to_dict (record {
  workshop = job.workshop;
  inventory_path = job.inventory_path;
  started_at = job.started_at;
  concurrency = job.concurrency;
  hosts = job.hosts;
  updated_at = Value.text now;
})

-- `.items()` of what is no mapping raises.
unfoldable pub use_mapping : Option (Dict Value) → Outcome LoadError (Dict Value)
use_mapping none = err (LoadError.other_error IntError.type_error)
use_mapping (some d) = ok d

module _ (py : Python) where
  unfoldable pub from_dict : String → Dict Value → Outcome LoadError FleetJob
  unfolding hosts_from_dict lift_int int_of mapping_or_empty use_mapping
  from_dict now raw = do
    hosts ← use_mapping (mapping_or_empty (get "hosts" raw))
    concurrency ← lift_int (int_of py (or_else (get "concurrency" raw) (Value.int (pos 4))))
    ok (record {
      workshop = text_or py "" (get "workshop" raw);
      inventory_path = text_or py "" (get "inventory_path" raw);
      started_at = text_or py now (get "started_at" raw);
      concurrency = concurrency;
      hosts = hosts_from_dict hosts;
      updated_at = get "updated_at" raw;
    })

  unfoldable pub load_job : Disk → String → String → Outcome LoadError FleetJob
  load_job disk now p =
      if disk.is_file p
      then (do
        v ← lift_yaml p (disk.read_yaml p)
        raw ← demand ("Job file must be a mapping: " <> p) (mapping_or_empty v)
        from_dict now raw)
      else err (LoadError.config_error ("Fleet job file not found: " <> p))

  -- The addresses of one lab.
  pub record HostAccess : Type 0 where
    pub id : String
    pub public_ip : Option String
    pub harvester_url : Option String
    pub rancher_url : Option String
    pub note : String
    pub other_urls : Dict String

  unfoldable pub shows : String → Option (List String) → Bool
  shows name none = true
  shows name (some l) = contains l name

  unfoldable pub url : String → ℤ → String
  url ip port = "https://" <> (ip <> (":" <> py.str port))

  unfoldable pub urls : String → Dict ℤ → Dict String
  urls ip [] = []
  urls ip ((name, port) ∷ d) = (name, url ip port) ∷ urls ip d

  unfoldable pub access_for_host : FleetInventory → FleetHost → HostAccess
  access_for_host inv host = elim (host_public_ip host) [
    | none ↦ record {
      id = host.id;
      public_ip = none;
      harvester_url = none;
      rancher_url = none;
      note = "set public_ip (or use a resolvable ssh host) in workshop.yaml";
      other_urls = [];
    }
    | some ip ↦ record {
      id = host.id;
      public_ip = some ip;
      harvester_url =
          if shows "harvester" inv.lab_components
          then some (url ip inv.harvester_ui_port)
          else none;
      rancher_url =
          if shows "rancher" inv.lab_components then some (url ip inv.rancher_ui_port) else none;
      note = "passwords on the host in ~/.rodeo/secrets.yaml — not printed here";
      other_urls = urls ip inv.ui_ports;
    }
  ]

  unfoldable pub fleet_access : FleetInventory → List FleetHost → List HostAccess
  unfolding access_for_host
  fleet_access inv hosts = map (access_for_host inv) hosts
