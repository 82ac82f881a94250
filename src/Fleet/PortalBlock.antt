-- ===== src/Fleet/PortalBlock.antt =====
-- _parse_portal of rodeo/fleet/inventory.py: the `portal:` block. The file system is a parameter.
use rodeo_cli.Base.{
  ℤ, pos, String, ◌<>◌, Bool, true, false, not, ◌&&◌, ◌||◌, Option, none, some, List, [], ◌∷◌,
  Outcome, ok, err, ◌==◌, string_eq, contains, ltb_ℤ, if◌then◌else◌, ◌>>=◌, refuse,
}
use rodeo_cli.Base.Dict.{Dict}
use rodeo_cli.Portal.Python.{Python}
use rodeo_cli.Portal.Text.{is_empty, strip, prefix, matches_guide_url}
use rodeo_cli.Cloud.Catalog.{repr_list}
use rodeo_cli.Config.Value.{
  Value, as_dict, is_null, is_true, get, get_or, str_of, repr_of, text_or, int_of, optional_text,
}
use rodeo_cli.Fleet.Inventory.{LoadError, PortalConfig, student_access, int_or_refuse}
use rodeo_cli.Fleet.Hostname.{matches_hostname}

abbrev pub portal_modes : List String
portal_modes = "both" ∷ "open" ∷ "roster" ∷ []

-- `(base / path).expanduser().resolve()`, Path.is_file, Path.stem, Path.parent, and the value that
-- yaml.safe_load gives for a file, or the text of its error.
pub record Disk : Type 0 where
  pub stem : String → String
  pub parent : String → String
  pub read_yaml : String → Outcome String Value
  pub resolve : String → String → String
  pub is_file : String → Bool

-- `if not isinstance(...): raise`
unfoldable pub demand : {A : Type 0} → String → Option A → Outcome LoadError A
demand message none = err (LoadError.config_error message)
demand message (some a) = ok a

-- Whether there is one, and it is refused.
unfoldable pub some_not : (String → Bool) → Option String → Bool
some_not p none = false
some_not p (some s) = not (p s)

unfoldable pub is_none : {A : Type 0} → Option A → Bool
is_none none = true
is_none (some a) = false

unfoldable pub shown : Option String → String
shown none = ""
shown (some s) = s

module _ (py : Python) (disk : Disk) (base : String) (provider : Option (Dict Value)) where
  unfoldable pub parse_mode : Dict Value → Outcome LoadError String
  parse_mode raw = do
    let mode = py.lower (strip (text_or py "both" (get "mode" raw)))
    _ ← refuse (not (contains portal_modes mode)) (
        LoadError.config_error (
          "portal.mode must be one of "
          <> (repr_list py portal_modes <> (", got: " <> repr_of py (get "mode" raw)))))
    ok mode

  unfoldable pub roster_of : Dict Value → Option String
  roster_of raw =
      let v = get "roster" raw in if is_true v then some (disk.resolve base (str_of py v)) else none

  unfoldable pub parse_hostname : Dict Value → Outcome LoadError (Option String)
  parse_hostname raw = do
    let hostname = optional_text py (get "hostname" raw)
    _ ← refuse (some_not (λ s. is_empty s || matches_hostname s) hostname) (
        LoadError.config_error
          ("portal.hostname is not a valid DNS name: " <> py.repr (prefix 80 (shown hostname))))
    ok hostname

  unfoldable pub parse_code_letters : Dict Value → Outcome LoadError ℤ
  parse_code_letters raw = do
    n ←
        int_or_refuse "portal.code_letters must be an integer (4-8)"
          (int_of py (get_or "code_letters" (Value.int (pos 6)) raw))
    _ ←
        refuse (ltb_ℤ n (pos 4) || ltb_ℤ (pos 8) n)
          (LoadError.config_error "portal.code_letters must be between 4 and 8")
    ok n

  unfoldable pub parse_guide_url : Dict Value → Outcome LoadError String
  parse_guide_url raw = do
    let guide_url = strip (text_or py "" (get "guide_url" raw))
    _ ← refuse (not (is_empty guide_url || matches_guide_url guide_url)) (
        LoadError.config_error (
          "portal.guide_url must be an https:// URL or a path on the portal like /guide/, got: "
          <> py.repr (prefix 80 guide_url)))
    ok guide_url

  unfoldable pub provider_id_of : Option (Dict Value) → Option String
  provider_id_of none = none
  provider_id_of (some labels) =
      let v = get "provider_id" labels in if is_true v then some (str_of py v) else none

  -- What an enabled portal must have.
  unfoldable pub check_enabled : Bool → String → Option String → Outcome {0, 0} LoadError Unit
  check_enabled enabled mode roster = do
    _ ←
        refuse (enabled && some_not disk.is_file roster)
          (LoadError.config_error ("portal.roster file not found: " <> shown roster))
    _ ← refuse (enabled && mode == "roster" && is_none roster) (
        LoadError.config_error "portal.mode: roster needs portal.roster (CSV name,email[,host_id])")
    refuse (enabled && not (is_none provider) && not (student_access py provider == "open")) (
        LoadError.config_error
          "portal.enabled needs provider.student_access: open (students could not reach their labs otherwise)")

  unfoldable pub parse_fields : Dict Value → Outcome LoadError PortalConfig
  parse_fields raw = do
    mode ← parse_mode raw
    _ ← check_enabled (is_true (get_or "enabled" (Value.bool true) raw)) mode (roster_of raw)
    hostname ← parse_hostname raw
    code_letters ← parse_code_letters raw
    guide_url ← parse_guide_url raw
    ok (record {
      enabled = is_true (get_or "enabled" (Value.bool true) raw);
      mode = mode;
      roster = roster_of raw;
      student_ssh = is_true (get "student_ssh" raw);
      title = text_or py "" (get "title" raw);
      code_letters = code_letters;
      guide_url = guide_url;
      hostname = hostname;
      instance_type = optional_text py (get "instance_type" raw);
      host = optional_text py (get "host" raw);
      ssh = optional_text py (get "ssh" raw);
      public_ip = optional_text py (get "public_ip" raw);
      provider_id = provider_id_of (as_dict (get "labels" raw));
    })

  unfoldable pub parse_portal : Value → Outcome LoadError (Option PortalConfig)
  parse_portal raw = if is_null raw then ok none else (do
    d ← demand "portal: must be a mapping" (as_dict raw)
    p ← parse_fields d
    ok (some p))
