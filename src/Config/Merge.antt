-- ===== src/Config/Merge.antt =====
-- How rodeo/config.py puts a configuration together: defaults, plan, parameter file and -P entries,
-- and the ?? placeholders. YAML, the environment, files and commands are parameters.
use rodeo_cli.Base.{
  String, ◌<>◌, Option, none, some, List, [], ◌∷◌, Outcome, ok, err, nat_eq, string_eq,
  if◌then◌else◌, ◌>>=◌,
}
use rodeo_cli.Base.Dict
use rodeo_cli.Base.Dict.{Dict}
use rodeo_cli.Portal.Text.{is_empty, strip}
use rodeo_cli.Planning.Instances.{split_on}
use rodeo_cli.Config.Value.{Value, Items, Fields, fields, dict_of}
use rodeo_cli.Config.Substring.{after_prefix}
use rodeo_cli.Fleet.Selecting.{split_once}

pub data ConfigError : Type 0 where
  config_error : String → ConfigError
  -- What Python raises itself, where a value is not what the code takes it for.
  other_error : ConfigError

-- _deep_merge, by the entries of the override: mappings on both sides are merged, and any other
-- value of the override replaces that of the base.
unfoldable mutual
  pub merge_value : Option Value → Value → Value
  merge_value (some (Value.dict b)) (Value.dict o) =
      Value.dict (dict_of (merge_fields (fields b) o))
  merge_value b v = v

  pub merge_fields : Dict Value → Fields → Dict Value
  merge_fields d Fields.no_fields = d
  merge_fields d (Fields.field k v r) =
      merge_fields (Dict.insert k (merge_value (Dict.lookup k d) v) d) r

unfoldable pub deep_merge : Dict Value → Dict Value → Dict Value
unfolding merge_fields
deep_merge base override = merge_fields base (dict_of override)

-- A value that is no mapping, or none, counts as empty.
unfoldable pub entries : Option Value → Dict Value
entries (some (Value.dict r)) = fields r
entries _ = []

unfoldable pub mapping_at : String → Dict Value → Dict Value
unfolding entries
mapping_at k d = entries (Dict.lookup k d)

-- The parts of a dotted key; `"".split(".")` has one part.
unfoldable pub set_parts : List String → Value → Dict Value → Dict Value
set_parts [] value d = d
set_parts (k ∷ []) value d = Dict.insert k value d
set_parts (k ∷ j ∷ parts) value d =
    Dict.insert k (Value.dict (dict_of (set_parts (j ∷ parts) value (mapping_at k d)))) d

unfoldable pub set_path : String → Value → Dict Value → Dict Value
unfolding split_on set_parts
set_path dotted value d = set_parts (split_on 46 dotted) value d

module _ (safe_load : String → Option Value) where
  -- A text that YAML does not read is the value itself.
  unfoldable pub param_value : String → Value
  param_value raw =
      if is_empty raw
      then Value.text ""
      else (elim (safe_load raw) [ none ↦ Value.text raw | some v ↦ v ])

  unfoldable pub parse_param : String → Outcome ConfigError (String × Value)
  unfolding param_value
  parse_param entry = elim (split_once 61 entry) [
    | none ↦ err (ConfigError.config_error ("-P expects KEY=VALUE, got '" <> (entry <> "'")))
    | some (key, raw) ↦
        if is_empty (strip key)
        then err (ConfigError.config_error ("-P expects KEY=VALUE, got '" <> (entry <> "'")))
        else ok (strip key, param_value raw)
  ]

  unfoldable pub parse_params : List String → Outcome ConfigError (List (String × Value))
  parse_params [] = ok []
  parse_params (p ∷ params) = do
    first ← parse_param p
    rest ← parse_params params
    ok (first ∷ rest)

unfoldable pub set_paths : List (String × Value) → Dict Value → Dict Value
unfolding set_path
set_paths [] cfg = cfg
set_paths ((key, value) ∷ params) cfg = set_paths params (set_path key value cfg)

-- The precedence: base defaults, those of the profile, the plan, the parameter file, and -P.
unfoldable pub merged_config :
    Dict Value → Dict Value → Dict Value → Dict Value → List (String × Value) → Dict Value
unfolding deep_merge set_paths
merged_config base profile plan paramfile params =
    set_paths params (deep_merge (deep_merge (deep_merge base profile) plan) paramfile)

-- What a placeholder is looked up in: the environment, a file's text (stripped), and the output of
-- a command that succeeded (stripped); none where there is nothing.
pub record Sources : Type 0 where
  pub environ : String → Option String
  pub read : String → Option String
  pub run : String → Option String
  pub secrets : Dict Value

unfoldable pub or_literal : String → Option String → Value
or_literal value none = Value.text value
or_literal value (some s) = if is_empty s then Value.text value else Value.text s

unfoldable pub secret_at : String → Option Value → Value
secret_at value none = Value.text value
secret_at value (some v) = v

module _ (src : Sources) where
  -- `spec` is the text behind `??`.
  unfoldable pub resolve_spec : String → String → Value
  unfolding or_literal secret_at after_prefix
  resolve_spec value spec = elim (after_prefix "env:" spec) [
    | some name ↦ or_literal value (src.environ name)
    | none ↦ elim (after_prefix "file:" spec) [
      | some path ↦ or_literal value (src.read path)
      | none ↦ elim (after_prefix "cmd:" spec) [
        | some command ↦ or_literal value (src.run command)
        | none ↦ secret_at value (Dict.lookup spec src.secrets)
      ]
    ]
  ]

  unfoldable pub resolve_text : String → Value
  unfolding resolve_spec
  resolve_text s = elim (after_prefix "??" s) [
    | none ↦ Value.text s
    | some spec ↦ resolve_spec s spec
  ]

  unfoldable mutual
    pub resolve_secrets : Value → Value
    resolve_secrets (Value.text s) = resolve_text s
    resolve_secrets (Value.dict r) = Value.dict (resolve_fields r)
    resolve_secrets (Value.list r) = Value.list (resolve_items r)
    resolve_secrets Value.null = Value.null
    resolve_secrets (Value.bool b) = Value.bool b
    resolve_secrets (Value.int i) = Value.int i
    resolve_secrets (Value.other s) = Value.other s

    pub resolve_fields : Fields → Fields
    resolve_fields Fields.no_fields = Fields.no_fields
    resolve_fields (Fields.field k v r) = Fields.field k (resolve_secrets v) (resolve_fields r)

    pub resolve_items : Items → Items
    resolve_items Items.no_items = Items.no_items
    resolve_items (Items.item v r) = Items.item (resolve_secrets v) (resolve_items r)
