-- ===== src/Fleet/Written.antt =====
-- The entry of workshop.yaml that a provisioned host gets (rodeo/fleet/inventory.py), key by key.
use mathlib.Core.Path.{subst}
use mathlib.Core.Option.{map}
use rodeo_cli.Base.{
  ◌≡◌, refl, ◌∙◌, ap, String, Bool, true, false, ◌&&◌, Option, none, some, List, [], ◌∷◌, ◌==◌,
  string_eq, if◌then◌else◌, arith, Bool-cases, inl, inr,
}
use rodeo_cli.Base.Dict
use rodeo_cli.Base.Dict.{Dict, keys, lookup-insert, lookup-erase}
use rodeo_cli.Portal.Text.{is_empty}
use rodeo_cli.Config.Entries.{fields-dict_of}
use rodeo_cli.Config.Value.{Value, Fields, fields, dict_of, is_true, get, get_or, has_key}
use rodeo_cli.Fleet.Inventory.{or_none}
use rodeo_cli.Fleet.Provisioned.{
  ProvisionedHost, Entry, text_values, labels_to_keep, fresh_entry, keep_user,
}
use rodeo_cli.Fleet.Keyed.{latest}

-- The last of the provisioned hosts with the id.
abbrev pub last_item : String → List ProvisionedHost → Option ProvisionedHost
last_item j [] = none
last_item j (p ∷ ps) = elim (last_item j ps) [
  | some q ↦ some q
  | none ↦ if j == p.id then some p else none
]

-- A value that is there and true in Python's sense.
abbrev pub if_true : Option Value → Option Value
if_true none = none
if_true (some v) = if is_true v then some v else none

-- The SSH user that is set in an entry.
abbrev pub user_of : Option Entry → Option Value
user_of none = none
user_of (some e) = if_true (Dict.lookup "ssh_user" e)

-- A label of the host: its provider's id, if it has one that is not empty, and no provision_action.
abbrev pub provider_label : Option String → Option String → Option String
provider_label none o = o
provider_label (some i) o = if is_empty i then o else some i

abbrev pub label_at : ProvisionedHost → String → Option String
label_at p k =
    if k == "provision_action"
    then none
    else if k == "provider_id"
    then provider_label p.provider_id (Dict.lookup k p.labels)
    else Dict.lookup k p.labels

abbrev pub user_key : Option Value → List String
user_key none = []
user_key (some v) = "ssh_user" ∷ []

pub record IsWritten (p : ProvisionedHost) (user : Option Value) (e : Entry) : Type 0 where
  pub id : Dict.lookup "id" e ≡ some (Value.text p.id)
  pub ssh : Dict.lookup "ssh" e ≡ some (Value.text p.ssh)
  pub public_ip : Dict.lookup "public_ip" e ≡ some (Value.text p.public_ip)
  pub labels : Fields
  pub labelled : Dict.lookup "labels" e ≡ some (Value.dict labels)
  pub label : (k : String) → Dict.lookup k (fields labels) ≡ map Value.text (label_at p k)
  pub ssh_user : Dict.lookup "ssh_user" e ≡ user
  pub all_keys : keys e ≡ "id" ∷ "ssh" ∷ "public_ip" ∷ "labels" ∷ user_key user

lookup-text_values :
    (k : String) (d : Dict String)
    → Dict.lookup k (text_values d) ≡ map Value.text (Dict.lookup k d)
unfolding text_values Dict.lookup
lookup-text_values k [] = refl
lookup-text_values k ((j, s) ∷ d) = ground (arith, lookup-text_values k d)

lookup-provider_id :
    (o : Option String) (k : String) (d : Dict String)
    → Dict.lookup k (elim (or_none o) [ none ↦ d | some i ↦ Dict.insert "provider_id" i d ])
      ≡ (if k == "provider_id" then provider_label o (Dict.lookup k d) else Dict.lookup k d)
unfolding or_none
lookup-provider_id none k d = ground arith
lookup-provider_id (some i) k d = elim (Bool-cases (is_empty i)) [
  | inl e ↦ rw e (ground arith)
  | inr e ↦ rw e (lookup-insert k "provider_id" i d)
]

lookup-labels_to_keep :
    (p : ProvisionedHost) (k : String) → Dict.lookup k (labels_to_keep p) ≡ label_at p k
unfolding labels_to_keep
lookup-labels_to_keep p k =
    lookup-erase k "provision_action" _
    ∙ ap (λ (o : Option String). if k == "provision_action" then none else o)
        (lookup-provider_id p.provider_id k p.labels)

labels_kept :
    (p : ProvisionedHost) (k : String)
    → Dict.lookup k (fields (dict_of (text_values (labels_to_keep p))))
      ≡ map Value.text (label_at p k)
labels_kept p k =
    ap (Dict.lookup k) (fields-dict_of (text_values (labels_to_keep p)))
    ∙ lookup-text_values k (labels_to_keep p)
    ∙ ap (map Value.text) (lookup-labels_to_keep p k)

fresh_entry-IsWritten : (p : ProvisionedHost) → IsWritten p none (fresh_entry p)
unfolding fresh_entry Dict.lookup string_eq keys
fresh_entry-IsWritten p = record {
  id = refl;
  ssh = refl;
  public_ip = refl;
  labels = dict_of (text_values (labels_to_keep p));
  labelled = refl;
  label = labels_kept p;
  ssh_user = refl;
  all_keys = refl;
}

user-IsWritten :
    (p : ProvisionedHost) (v : Value)
    → IsWritten p (some v) (Dict.insert "ssh_user" v (fresh_entry p))
unfolding fresh_entry Dict.lookup Dict.insert string_eq keys
user-IsWritten p v = record {
  id = refl;
  ssh = refl;
  public_ip = refl;
  labels = dict_of (text_values (labels_to_keep p));
  labelled = refl;
  label = labels_kept p;
  ssh_user = refl;
  all_keys = refl;
}

abbrev null_or : Option Value → Value
null_or none = Value.null
null_or (some v) = v

kept_lem :
    (p : ProvisionedHost) (o : Option Value)
    → IsWritten p (if_true o) (
        if is_true (null_or o) && true
        then Dict.insert "ssh_user" (null_or o) (fresh_entry p)
        else fresh_entry p)
unfolding is_true
kept_lem p none = fresh_entry-IsWritten p
kept_lem p (some v) = elim (Bool-cases (is_true v)) [
  | inl e ↦ rw e (user-IsWritten p v)
  | inr e ↦ rw e (fresh_entry-IsWritten p)
]

keep_user-IsWritten :
    (o : Option Entry) (p : ProvisionedHost) → IsWritten p (user_of o) (keep_user o (fresh_entry p))
unfolding keep_user get get_or has_key fresh_entry Dict.lookup string_eq
keep_user-IsWritten none p = fresh_entry-IsWritten p
keep_user-IsWritten (some prev) p = kept_lem p (Dict.lookup "ssh_user" prev)

if_true_idem : (o : Option Value) → if_true (if_true o) ≡ if_true o
if_true_idem none = refl
if_true_idem (some v) = ground arith

-- A user that was set stays set.
user_of-keep_user :
    (o : Option Entry) (p : ProvisionedHost)
    → user_of (some (keep_user o (fresh_entry p))) ≡ user_of o
user_of-keep_user none p = ap if_true (keep_user-IsWritten none p).ssh_user
user_of-keep_user (some e) p =
    ap if_true (keep_user-IsWritten (some e) p).ssh_user ∙ if_true_idem (Dict.lookup "ssh_user" e)

-- What an id has afterwards: what it had, or the entry of the host that was provisioned last.
abbrev pub IsLatest : Option ProvisionedHost → Option Entry → Option Entry → Type 0
IsLatest none o r = r ≡ o
IsLatest (some p) o r = (e : Entry) × (r ≡ some e) × IsWritten p (user_of o) e

IsLatest-step :
    (l : Option ProvisionedHost) (b : Bool) (p : ProvisionedHost) (o r : Option Entry)
    → IsLatest l (if b then some (keep_user o (fresh_entry p)) else o) r
    → IsLatest (elim l [ some q ↦ some q | none ↦ if b then some p else none ]) o r
IsLatest-step none true p o r h = (_, h, keep_user-IsWritten o p)
IsLatest-step none false p o r h = h
IsLatest-step (some q) true p o r (e, at, w) =
    (e, at, subst (λ u. IsWritten q u e) (user_of-keep_user o p) w)
IsLatest-step (some q) false p o r h = h

pub latest-IsLatest :
    (j : String) (ps : List ProvisionedHost) (o : Option Entry)
    → IsLatest (last_item j ps) o (latest j ps o)
unfolding latest
latest-IsLatest j [] o = refl
latest-IsLatest j (p ∷ ps) o =
    IsLatest-step (last_item j ps) (j == p.id) p o _ (latest-IsLatest j ps _)
