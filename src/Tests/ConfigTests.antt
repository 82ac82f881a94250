-- ===== src/Tests/ConfigTests.antt =====
-- Configurations and drift at concrete data (rodeo/config.py, rodeo/drift.py).
use rodeo_cli.Base.{
  ◌≡◌, refl, pos, String, true, some, List, [], ◌∷◌, ok, inl, string_eq, nat_eq, refuse, ◌>>=◌,
}
use rodeo_cli.Base.Rows.{has, is_unique}
use rodeo_cli.Base.Dict
use rodeo_cli.Base.Dict.{Dict, keys}
use rodeo_cli.Portal.Text.{is_empty, strip, lstrip, rstrip, is_space}
use rodeo_cli.Planning.Instances.{split_on}
use rodeo_cli.Config.Value.{
  Value, Fields, fields, dict_of, is_true, get, get_or, as_dict, as_int, is_null, str_of,
}
use rodeo_cli.Config.Substring.{is_in, starts_with, after_prefix}
use rodeo_cli.Config.Merge.{deep_merge, merge_value, merge_fields, set_path}
use rodeo_cli.Config.Precedence.{child, find, is_open, are_distinct, find-deep_merge}
use rodeo_cli.Config.Paths.{whole, diverge, find-set_path}
use rodeo_cli.Config.Validation.{
  block, use_as, is_unresolved, is_blank, keys_where, is_allowed, is_text, is_positive, is_amount,
  is_same, node_ip, node_ips, check_credentials, check_libvirt, check_amount, check_flavor,
  check_resources, check_network, check_target, check_tls, validate_config, libvirt_block,
}
use rodeo_cli.Config.Validated.{IsDeployable, validate_config-IsDeployable}
use rodeo_cli.Fleet.Loading.{is_nil}
use rodeo_cli.Fleet.Inventory.{or_none}
use rodeo_cli.Drift.Plan.{
  PlanConfig, plan_vm_rows, node_rows, row_ip, vm_flavor_map, node_flavors, or_fallback,
}
use rodeo_cli.Drift.Report.{
  Host, dhcp_host_fragment, differs, flavor_resources, collect_drift, phases_affected,
}
use rodeo_cli.Drift.Reported.{speaks, speaks-collect_drift}
use rodeo_cli.Drift.Affected.{phases_affected-collect_drift}
use rodeo_cli.Tests.PortalTests.{py}

-- The plan has one VM, which the host has with less memory.
abbrev plan : PlanConfig
plan = record {
  vms = ("vm1", some "10.0.0.5") ∷ [];
  resources = ("small", record { memory_mib = some 8192; vcpu = some 4 }) ∷ [];
  downstream = [];
  vm_nodes = some (
      record { name = "vm1"; flavor = some "small"; ip = some "10.0.0.5"; mgmt_mac = some "02:01" }
      ∷ []);
}

abbrev host : Host
host = record {
  vms = ("vm1", record { state = "running"; memory_mib = 4096; vcpus = 4 }) ∷ [];
  net_active = true;
  net_xml = some "<host mac='02:01' name='vm1' ip='10.0.0.5'/>";
}

phases_affected-collect_drift_example :
    phases_affected (collect_drift py plan (some host)) ≡ "vms" ∷ []
unfolding is_in starts_with after_prefix dhcp_host_fragment or_none is_empty string_eq nat_eq
    differs flavor_resources vm_flavor_map node_flavors or_fallback plan_vm_rows node_rows row_ip
    Dict.lookup Dict.insert
phases_affected-collect_drift_example = phases_affected-collect_drift py plan host

speaks-collect_drift_example : speaks "vm1" (collect_drift py plan (some host)) ≡ true
unfolding plan_vm_rows node_rows row_ip or_none is_empty Dict.lookup string_eq
speaks-collect_drift_example =
    speaks-collect_drift py plan (some host) "vm1" (some "10.0.0.5") (inl refl)

abbrev defaults : Dict Value
defaults =
    (
      "network",
      Value.dict (
          Fields.field "vip" (Value.text "10.0.0.10")
            (Fields.field "mode" (Value.text "nat") Fields.no_fields)),
    )
    ∷ []

abbrev override : Dict Value
override =
    ("network", Value.dict (Fields.field "vip" (Value.text "10.0.0.20") Fields.no_fields)) ∷ []

find-deep_merge_example :
    find ("network" ∷ "vip" ∷ []) (whole (deep_merge defaults override))
    ≡ some (Value.text "10.0.0.20")
unfolding find child is_open are_distinct dict_of fields is_unique has string_eq Dict.lookup
    merge_value
find-deep_merge_example = find-deep_merge ("network" ∷ "vip" ∷ []) defaults override refl refl

-- What the plan does not say stays.
deep_merge_kept :
    find ("network" ∷ "mode" ∷ []) (whole (deep_merge defaults override)) ≡ some (Value.text "nat")
unfolding find child deep_merge merge_fields merge_value dict_of fields string_eq Dict.lookup
    Dict.insert
deep_merge_kept = refl

find-set_path_example :
    (find ("network" ∷ "mode" ∷ []) (whole (set_path "network.mode" (Value.text "bridge") defaults))
      ≡ some (Value.text "bridge"))
    × ((path : List String)
        → diverge ("network" ∷ "mode" ∷ []) path ≡ true
        → find path (whole (set_path "network.mode" (Value.text "bridge") defaults))
          ≡ find path (whole defaults))
unfolding split_on nat_eq
find-set_path_example = find-set_path "network.mode" (Value.text "bridge") defaults

-- A configuration with one flavor, one VM and one password.
abbrev config : Dict Value
config =
    ("credentials", Value.dict (Fields.field "password" (Value.text "s3cret") Fields.no_fields))
    ∷ (
      "resources",
      Value.dict (
          Fields.field "small"
            (Value.dict (Fields.field "memory_mib" (Value.int (pos 8192)) Fields.no_fields))
            Fields.no_fields),
    )
    ∷ ("network", Value.dict (Fields.field "vip" (Value.text "10.0.0.10") Fields.no_fields))
    ∷ (
      "vms",
      Value.dict (
          Fields.field "vm1"
            (Value.dict (Fields.field "ip" (Value.text "10.0.0.5") Fields.no_fields))
            Fields.no_fields),
    )
    ∷ []

validate_config-IsDeployable_example : IsDeployable py ("baremetal" ∷ "aws" ∷ []) config
unfolding validate_config block use_as get get_or as_dict fields Dict.lookup string_eq
    check_credentials keys_where keys is_unresolved is_blank starts_with after_prefix is_empty strip
    lstrip rstrip is_space is_nil refuse ◌>>=◌ check_target str_of is_true libvirt_block
    check_libvirt is_allowed check_tls is_text check_resources check_flavor check_amount is_amount
    is_null is_positive as_int check_network node_ips node_ip is_same nat_eq
validate_config-IsDeployable_example =
    validate_config-IsDeployable py ("baremetal" ∷ "aws" ∷ []) (λ d. ok tt) (λ d. ok tt) config tt
      refl
