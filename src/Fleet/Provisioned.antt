-- ===== src/Fleet/Provisioned.antt =====
-- What provisioning writes to workshop.yaml (rodeo/fleet/inventory.py): merge_provisioned_hosts,
-- merge_portal and clear_portal, on the mapping that the file holds.
use rodeo_cli.Base.{
  String, not, ◌&&◌, Option, none, some, List, [], ◌∷◌, ◌++◌, Outcome, ok, string_eq, if◌then◌else◌,
  ◌>>=◌,
}
use rodeo_cli.Base.Dict
use rodeo_cli.Base.Dict.{Dict}
use rodeo_cli.Portal.Python.{Python}
use rodeo_cli.Config.Value.{
  Value, as_dict, list_of, dict_of, is_true, get, has_key, str_of, mapping_or_empty, as_list,
}
use rodeo_cli.Fleet.Inventory.{LoadError, or_none}
use rodeo_cli.Fleet.PortalBlock.{demand}

-- rodeo/providers/base.py; the code never asks for `provider_id` otherwise than `if provider_id`.
pub record ProvisionedHost : Type 0 where
  pub id : String
  pub ssh : String
  pub public_ip : String
  pub provider_id : Option String
  pub labels : Dict String

abbrev pub Entry : Type 0
Entry = Dict Value

unfoldable pub text_values : Dict String → Dict Value
text_values [] = []
text_values ((k, s) ∷ d) = (k, Value.text s) ∷ text_values d

unfoldable pub labels_to_keep : ProvisionedHost → Dict String
unfolding or_none
labels_to_keep item = Dict.erase "provision_action" (elim (or_none item.provider_id) [
  | none ↦ item.labels
  | some i ↦ Dict.insert "provider_id" i item.labels
])

-- The entry that a provisioned host is written as.
unfoldable pub fresh_entry : ProvisionedHost → Entry
unfolding text_values dict_of labels_to_keep
fresh_entry item =
    ("id", Value.text item.id)
    ∷ ("ssh", Value.text item.ssh)
    ∷ ("public_ip", Value.text item.public_ip)
    ∷ ("labels", Value.dict (dict_of (text_values (labels_to_keep item))))
    ∷ []

-- The user of the entry before it is kept.
unfoldable pub keep_user : Option Entry → Entry → Entry
keep_user none entry = entry
keep_user (some prev) entry =
    if is_true (get "ssh_user" prev) && not (has_key "ssh_user" entry)
    then Dict.insert "ssh_user" (get "ssh_user" prev) entry
    else entry

-- by_id, order and written
pub record Merge : Type 0 where
  pub by_id : Dict Entry
  pub order : List String
  pub written : List Entry

unfoldable pub new_order : Option Entry → String → List String → List String
new_order none i order = order ++ (i ∷ [])
new_order (some prev) i order = order

unfoldable pub merge_item : ProvisionedHost → Merge → Merge
unfolding new_order keep_user fresh_entry
merge_item item m =
    let entry = keep_user (Dict.lookup item.id m.by_id) (fresh_entry item) in
    record {
      by_id = Dict.insert item.id entry m.by_id;
      order = new_order (Dict.lookup item.id m.by_id) item.id m.order;
      written = m.written ++ (entry ∷ []);
    }

unfoldable pub merge_items : List ProvisionedHost → Merge → Merge
unfolding merge_item
merge_items [] m = m
merge_items (item ∷ items) m = merge_items items (merge_item item m)

-- [by_id[hid] for hid in order if hid in by_id]
unfoldable pub listed : Dict Entry → List String → List Entry
listed by_id [] = []
listed by_id (i ∷ order) = elim (Dict.lookup i by_id) [
  | none ↦ listed by_id order
  | some entry ↦ entry ∷ listed by_id order
]

unfoldable pub entry_values : List Entry → List Value
entry_values [] = []
entry_values (e ∷ l) = Value.dict (dict_of e) ∷ entry_values l

module _ (py : Python) where
  unfoldable pub index_entry : Option Entry → Merge → Merge
  index_entry none m = m
  index_entry (some entry) m =
      let hid = str_of py (get "id" entry) in
      if is_true (get "id" entry)
      then record {
        by_id = Dict.insert hid entry m.by_id;
        order = m.order ++ (hid ∷ []);
        written = m.written;
      }
      else m

  -- The entries with an id, by id and in order; others are left out.
  unfoldable pub index_entries : List Value → Merge → Merge
  unfolding index_entry
  index_entries [] m = m
  index_entries (v ∷ l) m = index_entries l (index_entry (as_dict v) m)

  -- `raw.get("hosts") or []`
  unfoldable pub existing_hosts : Dict Value → Outcome LoadError (List Value)
  existing_hosts raw =
      if is_true (get "hosts" raw)
      then demand "hosts: must be a list" (as_list (get "hosts" raw))
      else ok []

  -- The mapping to write, and the entries of the provisioned hosts.
  unfoldable pub merge_provisioned_hosts :
      Dict Value → List ProvisionedHost → Outcome LoadError (Dict Value × List Entry)
  unfolding existing_hosts index_entries merge_items listed entry_values
  merge_provisioned_hosts raw provisioned = do
    existing ← existing_hosts raw
    let m =
        merge_items provisioned
          (index_entries existing (record { by_id = []; order = []; written = [] }))
    ok (
      Dict.insert "hosts" (Value.list (list_of (entry_values (listed m.by_id m.order)))) raw,
      m.written,
    )

unfoldable pub set_portal_labels : Option String → Dict Value → Dict Value
set_portal_labels provider_id labels = elim (or_none provider_id) [
  | none ↦ labels
  | some i ↦ Dict.insert "provider_id" (Value.text i) labels
]

-- None where the portal, or its labels, are neither empty nor a mapping.
unfoldable pub merge_portal : Dict Value → String → String → Option String → Option (Dict Value)
unfolding set_portal_labels
merge_portal raw ssh public_ip provider_id = elim (mapping_or_empty (get "portal" raw)) [
  | none ↦ none
  | some p ↦
      let portal : Dict Value =
        Dict.insert "public_ip" (Value.text public_ip) (Dict.insert "ssh" (Value.text ssh) p) in
      (elim (mapping_or_empty (get "labels" portal)) [
        | none ↦ none
        | some labels ↦ some (
            Dict.insert "portal"
              (Value.dict (
                dict_of (
                  Dict.insert "labels" (Value.dict (dict_of (set_portal_labels provider_id labels)))
                    portal)))
              raw)
      ])
]

-- The mapping to write, if the file is written.
unfoldable pub clear_portal : Dict Value → Option (Dict Value)
clear_portal raw = elim (as_dict (get "portal" raw)) [
  | none ↦ none
  | some p ↦ some (
      Dict.insert "portal"
        (Value.dict (dict_of (Dict.erase "labels" (Dict.erase "public_ip" (Dict.erase "ssh" p)))))
        raw)
]
