-- ===== src/Cloud/Catalog.antt =====
-- How rodeo/providers/instance_catalog.py finds the size of a host.
use rodeo_cli.Base.{
  String, ◌<>◌, Bool, true, false, not, Option, none, some, List, [], ◌∷◌, map, Outcome, ok, err,
  string_eq, contains, if◌then◌else◌,
}
use rodeo_cli.Base.Lists.{keep}
use rodeo_cli.Base.Dict
use rodeo_cli.Base.Dict.{Dict}
use rodeo_cli.Portal.Python.{Python}
use rodeo_cli.Portal.Text.{is_empty, strip}
use rodeo_cli.Portal.Instructor.{join_comma}
use rodeo_cli.Cloud.Table.{InstanceOffer, aws_profile_tiers}

pub data ConfigError : Type 0 where
  config_error : String → ConfigError

unfoldable pub tiers : List String
tiers = "budget" ∷ "recommended" ∷ "performance" ∷ []

abbrev default_profile_key : String
default_profile_key = "harvester"

unfoldable pub canonical_profile : String → String
canonical_profile profile =
    let name = strip profile in if is_empty name then default_profile_key else name

-- catalog[tier] is there
unfoldable pub has_tier : Dict InstanceOffer → String → Bool
unfolding Dict.lookup
has_tier catalog tier = elim (Dict.lookup tier catalog) [ none ↦ false | some _ ↦ true ]

-- AWS_PROFILE_TIERS["harvester"] is an entry of the table; without it the lookup would raise.
unfoldable pub default_catalog : Dict InstanceOffer
default_catalog = elim (Dict.lookup default_profile_key aws_profile_tiers) [
  | none ↦ []
  | some c ↦ c
]

unfoldable pub catalog_for_profile : String → Dict InstanceOffer
catalog_for_profile profile = elim (Dict.lookup (canonical_profile profile) aws_profile_tiers) [
  | none ↦ default_catalog
  | some c ↦ c
]

unfoldable pub explicit_type : Option String → String
explicit_type none = ""
explicit_type (some s) = strip s

module _ (py : Python) where
  -- A list of texts as Python prints it.
  unfoldable pub repr_list : List String → String
  repr_list l = "[" <> (join_comma (map py.repr l) <> "]")

  unfoldable pub bad_tier : String → ConfigError
  bad_tier raw =
      config_error
        ("provider.instance_tier must be one of " <> (repr_list tiers <> (", got " <> py.repr raw)))

  unfoldable pub normalize_tier : Option String → Outcome ConfigError String
  normalize_tier none = ok "recommended"
  normalize_tier (some raw) =
      if is_empty (strip raw)
      then ok "recommended"
      else if not (contains tiers (py.lower (strip raw)))
      then err (bad_tier raw)
      else ok (py.lower (strip raw))

  unfoldable pub no_tier : String → String → ConfigError
  no_tier profile tier = config_error (
      "profile "
      <> (py.repr (canonical_profile profile)
          <> (" has no "
              <> (py.repr tier
                  <> (" instance tier; choose one of "
                      <> repr_list (keep (has_tier (catalog_for_profile profile)) tiers))))))

  unfoldable pub pick : String → String → Option InstanceOffer → Outcome ConfigError InstanceOffer
  pick profile tier none = err (no_tier profile tier)
  pick profile tier (some offer) = ok offer

  unfoldable pub offer_for : String → String → Outcome ConfigError InstanceOffer
  offer_for profile tier = elim (normalize_tier (some tier)) [
    | err e ↦ err e
    | ok t ↦ pick profile t (Dict.lookup t (catalog_for_profile profile))
  ]

  unfoldable pub resolve_tier :
      String → Option String → Outcome ConfigError (String × Option String)
  resolve_tier profile instance_tier = elim (normalize_tier instance_tier) [
    | err e ↦ err e
    | ok tier ↦ elim (offer_for profile tier) [
      | err e ↦ err e
      | ok offer ↦ ok (offer.instance_type, some tier)
    ]
  ]

  unfoldable pub resolve_instance_type :
      String → Option String → Option String → Outcome ConfigError (String × Option String)
  resolve_instance_type profile instance_type instance_tier =
      if is_empty (explicit_type instance_type)
      then resolve_tier profile instance_tier
      else ok (explicit_type instance_type, none)
