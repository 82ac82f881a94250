-- ===== src/Fleet/Inventory.antt =====
-- The records of rodeo/fleet/inventory.py.
use rodeo_cli.Base.{
  ℤ, String, ◌<>◌, Bool, Option, none, some, List, [], map, Outcome, ok, err, if◌then◌else◌,
}
use rodeo_cli.Base.Dict.{Dict}
use rodeo_cli.Portal.Python.{Python}
use rodeo_cli.Portal.Text.{is_empty}
use rodeo_cli.Config.Value.{Value, IntError, as_list, get, text_or, str_of, is_true}
use rodeo_cli.Config.Substring.{replace}

-- A ConfigError with its message, or an error that Python raises itself.
pub data LoadError : Type 0 where
  config_error : String → LoadError
  other_error : IntError → LoadError

pub record FleetHost : Type 0 where
  pub id : String
  pub ssh : String
  pub public_ip : Option String
  pub labels : Dict String
  pub ssh_user : Option String

pub record PortalConfig : Type 0 where
  pub enabled : Bool
  pub mode : String
  pub roster : Option String
  pub student_ssh : Bool
  pub title : String
  pub code_letters : ℤ
  pub guide_url : String
  pub hostname : Option String
  pub instance_type : Option String
  pub host : Option String
  pub ssh : Option String
  pub public_ip : Option String
  pub provider_id : Option String

pub record FleetInventory : Type 0 where
  pub name : String
  pub lab_dir : String
  pub defaults : Dict Value
  pub hosts : List FleetHost
  pub lab_source : Option String
  pub lab_branch : Option String
  pub lab_profile : Option String
  pub lab_target : String
  pub deploy_concurrency : ℤ
  pub harvester_ui_port : ℤ
  pub rancher_ui_port : ℤ
  pub install_url : String
  pub ref : Option String
  pub install_url_explicit : Bool
  pub lab_components : Option (List String)
  pub provider : Option (Dict Value)
  pub operator_secrets : List String
  pub ui_ports : Dict ℤ
  pub portal : Option PortalConfig

-- An empty text counts as none.
unfoldable pub or_none : Option String → Option String
or_none none = none
or_none (some s) = if is_empty s then none else some s

unfoldable pub fqdn : PortalConfig → Option String
unfolding or_none replace
fqdn p = elim (or_none p.hostname) [
  | some h ↦ some h
  | none ↦ elim (or_none p.public_ip) [
    | none ↦ none
    | some ip ↦ some ("portal-" <> (replace "." "-" ip <> ".sslip.io"))
  ]
]

unfoldable pub target : PortalConfig → Option String
unfolding or_none
target p = elim (or_none p.host) [ none ↦ p.ssh | some h ↦ some h ]

-- The value that int gives, with its own errors.
unfoldable pub lift_int : Outcome IntError ℤ → Outcome LoadError ℤ
lift_int (ok i) = ok i
lift_int (err e) = err (LoadError.other_error e)

-- `try: int(v) except (TypeError, ValueError)`: a ConfigError instead.
unfoldable pub int_or_refuse : String → Outcome IntError ℤ → Outcome LoadError ℤ
int_or_refuse message (ok i) = ok i
int_or_refuse message (err e) = err (LoadError.config_error message)

module _ (py : Python) where
  unfoldable pub ssh_user : FleetInventory → String
  ssh_user inv = text_or py "root" (get "ssh_user" inv.defaults)

  -- provider.student_access, `operator` if it is not set.
  unfoldable pub student_access : Option (Dict Value) → String
  student_access none = "operator"
  student_access (some p) = text_or py "operator" (get "student_access" p)

  unfoldable pub identity_file : FleetInventory → Option String
  identity_file inv =
      let v = get "identity_file" inv.defaults in if is_true v then some (str_of py v) else none

  unfoldable pub ssh_options : FleetInventory → Outcome LoadError (List String)
  ssh_options inv =
      let v = get "ssh_options" inv.defaults in
      if is_true v
      then (elim (as_list v) [
        | none ↦ err (LoadError.config_error "defaults.ssh_options must be a list of strings")
        | some l ↦ ok (map (str_of py) l)
      ])
      else ok []
