-- ===== src/Tests/FleetTests.antt =====
-- A workshop at concrete data (rodeo/fleet/inventory.py, job.py and fanout.py).
use rodeo_cli.Base.{
  ◌≡◌, refl, pos, String, true, false, none, some, [], ◌∷◌, ok, inl, inr, map, string_eq, nat_eq,
  refuse, ◌>>=◌, ◌↔◌,
}
use rodeo_cli.Base.Lists.{keep, In}
use rodeo_cli.Base.Rows.{has, is_unique}
use rodeo_cli.Base.Dict
use rodeo_cli.Base.Dict.{Dict, keys}
use rodeo_cli.Portal.Text.{is_empty, strip, lstrip, rstrip, is_space, matches_lab_id}
use rodeo_cli.Config.Value.{
  Value, Items, Fields, items, fields, is_true, get, get_or, or_else, has_key, as_dict, as_list,
  as_int, is_null, str_of, int_of, text_or, optional_text, mapping_or_empty,
}
use rodeo_cli.Config.Substring.{starts_with, after_prefix, replace, replace_behind, len}
use rodeo_cli.Config.Source.{
  resolve_install_source, validate_chosen, chosen_ref, install_url_for_ref, install_url_template,
  repo_override, match_github,
}
use rodeo_cli.Fleet.Inventory.{FleetHost, FleetInventory, lift_int, int_or_refuse, student_access}
use rodeo_cli.Fleet.PortalBlock.{
  Disk, demand, some_not, is_none, parse_mode, roster_of, check_enabled, parse_hostname,
  parse_code_letters, parse_guide_url, provider_id_of, parse_fields, parse_portal,
}
use rodeo_cli.Fleet.Loading.{
  lift_source, lift_yaml, texts, ports_of, add_port, secret_names, is_nil, in_range, parse_lab_dir,
  parse_target, int_or, parse_concurrency, parse_components, parse_secrets, parse_ui_ports,
  parse_provider, labels_of, parse_host, parse_hosts, host_list, parse_inventory, load_inventory,
}
use rodeo_cli.Fleet.WellFormed.{IsWellFormed, load_inventory-IsWellFormed}
use rodeo_cli.Fleet.Selecting.{select_hosts}
use rodeo_cli.Fleet.Selected.{is_wanted, are_known, select_hosts_iff}
use rodeo_cli.Fleet.Provisioned.{ProvisionedHost}
use rodeo_cli.Fleet.Job.{FleetJob, save_job, from_dict, pending}
use rodeo_cli.Fleet.Jobs.{updated, from_dict-save_job}
use rodeo_cli.Fleet.Fanout.{run_each, fanout}
use rodeo_cli.Fleet.Gathered.{fanout-map}
use rodeo_cli.Tests.PortalTests.{py}

abbrev host_entry : Fields
host_entry =
    Fields.field "id" (Value.text "h1")
      (Fields.field "ssh" (Value.text "10.0.0.1") Fields.no_fields)

abbrev workshop : Value
workshop = Value.dict (
    Fields.field "name" (Value.text "w") (
      Fields.field "lab"
        (Value.dict (
          Fields.field "dir" (Value.text "/lab") (
            Fields.field "ui_ports"
              (Value.dict (Fields.field "smlm" (Value.int (pos 443)) Fields.no_fields))
              Fields.no_fields)))
        (Fields.field "hosts" (Value.list (Items.item (Value.dict host_entry) Items.no_items)) (
          Fields.field "portal"
            (Value.dict (Fields.field "mode" (Value.text "open") Fields.no_fields))
            Fields.no_fields))))

abbrev disk : Disk
disk = record {
  stem = λ p. p;
  parent = λ p. p;
  read_yaml = λ p. ok workshop;
  resolve = λ base p. p;
  is_file = λ p. true;
}

abbrev h1 : FleetHost
h1 = record { id = "h1"; ssh = "10.0.0.1"; public_ip = none; labels = []; ssh_user = none }

abbrev h2 : FleetHost
h2 = record {
  id = "h2";
  ssh = "10.0.0.2";
  public_ip = none;
  labels = ("room", "a") ∷ [];
  ssh_user = none;
}

abbrev inventory : FleetInventory
inventory = record {
  name = "w";
  lab_dir = "/lab";
  defaults = [];
  hosts = h1 ∷ [];
  lab_source = none;
  lab_branch = none;
  lab_profile = none;
  lab_target = "baremetal";
  deploy_concurrency = pos 4;
  harvester_ui_port = pos 8443;
  rancher_ui_port = pos 30002;
  install_url = "https://raw.githubusercontent.com/avaleror/rodeo-cli/main/install.sh";
  ref = none;
  install_url_explicit = false;
  lab_components = none;
  provider = none;
  operator_secrets = [];
  ui_ports = ("smlm", pos 443) ∷ [];
  portal = some (record {
    enabled = true;
    mode = "open";
    roster = none;
    student_ssh = false;
    title = "";
    code_letters = pos 6;
    guide_url = "";
    hostname = none;
    instance_type = none;
    host = none;
    ssh = none;
    public_ip = none;
    provider_id = none;
  });
}

load_inventory-IsWellFormed_example : IsWellFormed py disk inventory
unfolding load_inventory lift_yaml demand mapping_or_empty as_dict as_list as_int fields items
    is_true is_null get get_or or_else has_key str_of int_of text_or optional_text Dict.lookup
    Dict.insert string_eq nat_eq parse_inventory refuse ◌>>=◌ parse_lab_dir parse_target int_or
    lift_int parse_concurrency in_range lift_source resolve_install_source validate_chosen
    chosen_ref install_url_for_ref install_url_template repo_override match_github replace
    replace_behind len starts_with after_prefix is_empty strip lstrip rstrip is_space
    parse_components parse_secrets secret_names texts parse_ui_ports ports_of add_port
    parse_provider host_list is_nil is_none parse_hosts parse_host matches_lab_id labels_of
    parse_portal parse_fields parse_mode check_enabled some_not roster_of parse_hostname
    parse_code_letters int_or_refuse parse_guide_url provider_id_of student_access
load_inventory-IsWellFormed_example =
    load_inventory-IsWellFormed py disk (record { repo = ""; url_template = "" }) none "w.yaml"
      inventory refl

select_hosts_iff_example : (select_hosts inventory ("h1" ∷ []) [] ≡ ok (h1 ∷ [])) ↔ (
    (are_known ("h1" ∷ []) (h1 ∷ []) ≡ true)
    × (is_nil (h1 ∷ []) ≡ false)
    × ((h1 ∷ []) ≡ keep (is_wanted ("h1" ∷ []) []) (h1 ∷ [])))
select_hosts_iff_example = select_hosts_iff inventory ("h1" ∷ []) [] (h1 ∷ [])

abbrev provisioned : ProvisionedHost
provisioned = record {
  id = "h1";
  ssh = "root@198.51.100.7";
  public_ip = "198.51.100.7";
  provider_id = some "i-0abc";
  labels = [];
}

abbrev stored : Dict Value
stored = ("hosts", Value.list (Items.item (Value.dict host_entry) Items.no_items)) ∷ []

abbrev job : FleetJob
job = record {
  workshop = "w";
  inventory_path = "/w/w.yaml";
  started_at = "9:00";
  concurrency = pos 4;
  hosts = ("h1", pending) ∷ [];
  updated_at = Value.null;
}

from_dict-save_job_example : from_dict py "9:30" (save_job "9:15" job) ≡ ok (updated "9:15" job)
unfolding is_empty is_true
from_dict-save_job_example = from_dict-save_job py "9:15" "9:30" job refl refl refl refl

-- The second host finishes first.
fanout-map_example :
    (fanout {E = String} (λ h. ok h.ssh) 8 (h2 ∷ h1 ∷ []) (h1 ∷ h2 ∷ [])
      ≡ run_each (λ h. ok h.ssh) (h1 ∷ h2 ∷ []))
    × (fanout {E = String} (λ h. ok h.ssh) 8 (h2 ∷ h1 ∷ []) (h1 ∷ h2 ∷ [])
        ≡ ok (map (λ h. h.ssh) (h1 ∷ h2 ∷ [])))
unfolding is_unique has string_eq
fanout-map_example =
    fanout-map (λ h. ok h.ssh) (λ h. h.ssh) 8 (h1 ∷ h2 ∷ []) (h2 ∷ h1 ∷ []) (λ h. refl) refl
      (λ h i. both h i)
  where
    both : (h : FleetHost) → In h (h1 ∷ h2 ∷ []) → In h (h2 ∷ h1 ∷ [])
    both h (inl e) = inr (inl e)
    both h (inr (inl e)) = inl e
    both h (inr (inr x)) = absurd x
