-- ===== src/Pipeline/Registry.antt =====
-- The registry of profiles (rodeo/profiles/__init__.py) and that of cloud providers
-- (rodeo/providers/registry.py). What a plugin registers is a parameter: `load` gives the registry
-- after plugins were looked for.
use rodeo_cli.Base.{
  String, ◌<>◌, Bool, true, false, not, ◌&&◌, Option, none, some, [], ◌∷◌, Outcome, ok, err, ◌==◌,
  string_eq, if◌then◌else◌,
}
use rodeo_cli.Base.Dict
use rodeo_cli.Base.Dict.{Dict, keys}
use rodeo_cli.Portal.Python.{Python}
use rodeo_cli.Portal.Text.{is_empty, strip}
use rodeo_cli.Portal.Instructor.{join_comma}
use rodeo_cli.Pipeline.Profile.{Profile, suse_virt, rancher, rancher_test, suse_edge}

-- The lab-in-a-box profile; `key` is what its host says of the source that is installed.
unfoldable pub lab_in_a_box : Option String → Profile
lab_in_a_box key = record {
  name = "lab-in-a-box";
  phases = "kvm_host" ∷ "labinabox_host" ∷ "labinabox" ∷ "custom_scripts" ∷ [];
  vm_names = [];
  ansible_phases = "kvm_host" ∷ [];
  guarded_phases = [];
  no_cache_phases = "custom_scripts" ∷ [];
  phase_key = λ phase. if not (phase == "labinabox_host") then none else key;
}

unfoldable pub registry : Option String → Dict Profile
registry key =
    ("suse-virt", suse_virt)
    ∷ ("rancher", rancher)
    ∷ ("rancher-test", rancher_test)
    ∷ ("suse-edge", suse_edge)
    ∷ ("lab-in-a-box", lab_in_a_box key)
    ∷ []

pub data LookupError : Type 0 where
  value_error : String → LookupError
  config_error : String → LookupError

-- k in d
unfoldable pub is_registered : {V : Type 0} → String → Dict V → Bool
is_registered k d = elim (Dict.lookup k d) [ none ↦ false | some _ ↦ true ]

unfoldable pub register_profile : Profile → Bool → Dict Profile → Outcome LookupError (Dict Profile)
register_profile profile replace reg =
    if is_empty profile.name
    then err (value_error "profile must define a non-empty .name")
    else if is_registered profile.name reg && not replace
    then err (
        value_error (
          "profile '"
          <> (profile.name <> "' is already registered (pass replace=True to override)")))
    else ok (Dict.insert profile.name profile reg)

-- After the plugins: the profile, or the names that are known.
unfoldable pub found_profile : String → Dict Profile → Option Profile → Outcome LookupError Profile
found_profile type_name reg (some profile) = ok profile
found_profile type_name reg none =
    err (
      value_error
        ("Unknown rodeo type '" <> (type_name <> ("'. Known: " <> join_comma (keys reg)))))

-- The profile, and the registry after the call.
unfoldable pub get_profile :
    (Dict Profile → Dict Profile)
    → String
    → Dict Profile
    → Outcome LookupError Profile × Dict Profile
get_profile load type_name reg = elim (Dict.lookup type_name reg) [
  | some profile ↦ (ok profile, reg)
  | none ↦ (found_profile type_name (load reg) (Dict.lookup type_name (load reg)), load reg)
]

unfoldable pub planned : Dict String
planned = ("gcp", "F4b") ∷ ("vultr", "F4c") ∷ ("hetzner", "F4d") ∷ []

unfoldable pub provider_key : Python → String → String
provider_key py name = py.lower (strip name)

-- The factories make providers of type P (a factory that cannot be called is none); `expected` is
-- the text of the names that are known.
module _ (py : Python) {P : Type 0} where
  unfoldable pub register_provider : String → P → Bool → Dict P → Outcome LookupError (Dict P)
  register_provider name factory replace reg =
      let key = provider_key py name in
      if is_empty key
      then err (value_error "provider name must be non-empty")
      else if is_registered key reg && not replace
      then err (
          value_error
            ("provider '" <> (key <> "' is already registered (pass replace=True to override)")))
      else ok (Dict.insert key factory reg)

  unfoldable pub found_provider :
      (Dict P → String) → String → Dict P → Option P → Outcome LookupError P
  found_provider expected name reg (some factory) = ok factory
  found_provider expected name reg none = elim (Dict.lookup (provider_key py name) planned) [
    | some stage ↦ err (
        config_error (
          "provider.type "
          <> (provider_key py name
              <> (" is planned (" <> (stage <> ") — not implemented yet; use aws")))))
    | none ↦ err (
        config_error (
          "unsupported provider.type: "
          <> (py.repr name <> (" (expected one of " <> (expected reg <> ")")))))
  ]

  unfoldable pub get_provider :
      (Dict P → String) → (Dict P → Dict P) → String → Dict P → Outcome LookupError P × Dict P
  get_provider expected load name reg = elim (Dict.lookup (provider_key py name) reg) [
    | some factory ↦ (ok factory, reg)
    | none ↦ (
      found_provider expected name (load reg) (Dict.lookup (provider_key py name) (load reg)),
      load reg,
    )
  ]
