-- ===== src/Fleet/Selecting.antt =====
-- Which hosts a command is about (rodeo/fleet/inventory.py): select_hosts and its label options,
-- and the ids that a provision must ensure.
use Prim.Native.Char.{code}
use rodeo_cli.Base.{
  ℕ, zero, suc, ◌-◌, ℤ, pos, String, ◌<>◌, Bool, not, ◌&&◌, Option, none, some, List, [], ◌∷◌, map,
  Outcome, ok, err, ◌==◌, nat_eq, string_eq, option_eq, contains, ltb, if◌then◌else◌, ◌>>=◌, refuse,
}
use rodeo_cli.Base.Lists.{keep}
use rodeo_cli.Base.Dict
use rodeo_cli.Base.Dict.{Dict}
use rodeo_cli.Portal.Python.{Python}
use rodeo_cli.Portal.Text.{is_empty, strip}
use rodeo_cli.Portal.Instructor.{sort_by, text_before, join_comma}
use rodeo_cli.Config.Value.{Value, get, or_else, int_of, text_or}
use rodeo_cli.Config.Substring.{starts_with, len}
use rodeo_cli.Fleet.Inventory.{LoadError, FleetHost, FleetInventory, or_none, lift_int}
use rodeo_cli.Fleet.Loading.{is_nil}

abbrev config_error : String → LoadError
config_error = LoadError.config_error

unfoldable pub require_deploy_config : FleetInventory → Outcome {0, 0} LoadError Unit
unfolding or_none
require_deploy_config inv = elim (or_none inv.lab_source) [
  | some s ↦ ok tt
  | none ↦ elim (or_none inv.lab_profile) [
    | some s ↦ ok tt
    | none ↦
        err (
          config_error "fleet deploy requires lab.source (git URL) or lab.profile in workshop.yaml")
  ]
]

-- set(l): each element once
unfoldable pub distinct : List String → List String
distinct [] = []
distinct (s ∷ l) = let rest = distinct l in if contains rest s then rest else s ∷ rest

-- id_set - {h.id for h in hosts}
unfoldable pub unknown_ids : List String → List FleetHost → List String
unknown_ids ids hosts = keep (λ i. not (contains (map (λ h. h.id) hosts) i)) (distinct ids)

unfoldable pub has_label : String → String → FleetHost → Bool
has_label key value h = Dict.lookup key h.labels == some value

unfoldable pub filter_labels : Dict String → List FleetHost → List FleetHost
filter_labels [] hosts = hosts
filter_labels ((key, value) ∷ d) hosts = filter_labels d (keep (has_label key value) hosts)

-- An empty list of ids, or none, is no filter.
unfoldable pub filter_ids : List String → List FleetHost → Outcome LoadError (List FleetHost)
filter_ids [] hosts = ok hosts
filter_ids (i ∷ ids) hosts = do
  let unknown = unknown_ids (i ∷ ids) hosts
  _ ←
      refuse (not (is_nil unknown))
        (config_error ("unknown host id(s): " <> join_comma (sort_by text_before unknown)))
  ok (keep (λ h. contains (i ∷ ids) h.id) hosts)

unfoldable pub select_hosts :
    FleetInventory → List String → Dict String → Outcome LoadError (List FleetHost)
select_hosts inv ids labels = do
  named ← filter_ids ids inv.hosts
  let selected = filter_labels labels named
  _ ← refuse (is_nil selected) (config_error "no hosts matched the selection")
  ok selected

-- s.split(c, 1): the parts before and behind the first c.
unfoldable pub split_once : ℕ → String → Option (String × String)
split_once c String.[] = none
split_once c (String.◌∷◌ d s) =
    let rest = split_once c s in
    if code d == c
    then some ("", s)
    else (elim rest [ none ↦ none | some (a, b) ↦ some (String.◌∷◌ d a, b) ])

unfoldable pub parse_labels : Dict String → List String → Outcome LoadError (Dict String)
parse_labels out [] = ok out
parse_labels out (item ∷ raw) = elim (split_once 61 item) [
  | none ↦ err (config_error ("label must be key=value, got: " <> item))
  | some (key, value) ↦
      let rest = parse_labels (Dict.insert (strip key) (strip value) out) raw in
      if is_empty (strip key) then err (config_error ("label key empty in: " <> item)) else rest
]

unfoldable pub parse_label_opts : List String → Outcome LoadError (Dict String)
unfolding parse_labels
parse_label_opts raw = parse_labels [] raw

unfoldable pub count_of : ℕ → String → ℕ
count_of c String.[] = 0
count_of c (String.◌∷◌ d s) = let rest = count_of c s in if code d == c then suc rest else rest

unfoldable pub host_public_ip : FleetHost → Option String
unfolding or_none split_once count_of starts_with
host_public_ip h = elim (or_none h.public_ip) [
  | some ip ↦ some ip
  | none ↦
      let target : String = elim (split_once 64 h.ssh) [ none ↦ h.ssh | some (user, t) ↦ t ] in
      let host : String = elim (split_once 58 target) [
        | none ↦ target
        | some (name, port) ↦ name
      ] in
      or_none
        (some (if count_of 58 target == 1 && not (starts_with "[" target) then host else target))
]

-- An empty provider counts as none.
unfoldable pub require_provider : FleetInventory → Outcome LoadError (Dict Value)
require_provider inv = elim inv.provider [
  | none ↦ err (config_error "fleet provision requires provider: in workshop.yaml (e.g. type: aws)")
  | some [] ↦
      err (config_error "fleet provision requires provider: in workshop.yaml (e.g. type: aws)")
  | some (f ∷ d) ↦ ok (f ∷ d)
]

unfoldable pub zeros : ℕ → String
zeros zero = ""
zeros (suc n) = "0" <> zeros n

module _ (py : Python) where
  -- f"{i:0{width}d}"
  unfoldable pub padded : ℕ → ℕ → String
  unfolding zeros len
  padded width i = zeros (width - len (py.str (pos i))) <> py.str (pos i)

  -- The numbers from i on, `left` of them.
  unfoldable pub numbered : String → ℕ → ℕ → ℕ → List String
  numbered p width i zero = []
  numbered p width i (suc left) = (p <> padded width i) ∷ numbered p width (suc i) left

  abbrev width_of : ℕ → ℕ
  width_of count = let l = len (py.str (pos count)) in if ltb l 2 then 2 else l

  abbrev count_ids : Dict Value → ℤ → Outcome LoadError (List String)
  count_ids provider (pos (suc m)) = ok (
      numbered (text_or py "student-" (get "host_id_prefix" provider)) (width_of (suc m)) 1 (suc m))
  count_ids provider _ = err (
      config_error
        "provider.count is required when hosts: is empty (or pass --host / list hosts in workshop.yaml)")

  unfoldable pub desired_host_ids : FleetInventory → List String → Outcome LoadError (List String)
  desired_host_ids inv [] =
      if is_nil inv.hosts
      then (do
        provider ← require_provider inv
        count ← lift_int (int_of py (or_else (get "count" provider) (Value.int (pos 0))))
        count_ids provider count)
      else ok (map (λ h. h.id) inv.hosts)
  desired_host_ids inv (i ∷ ids) = ok (i ∷ ids)
