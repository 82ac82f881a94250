-- ===== src/Config/Entries.antt =====
-- Mappings and lists of YAML values, built and read again.
use rodeo_cli.Base.{◌≡◌, refl, ap, String, List, [], ◌∷◌, string_eq, ==_refl}
use rodeo_cli.Base.Dict
use rodeo_cli.Base.Dict.{Dict, lookup-insert}
use rodeo_cli.Config.Value.{Value, fields, dict_of, items, list_of, get, get_or}

pub fields-dict_of : (d : Dict Value) → fields (dict_of d) ≡ d
unfolding fields dict_of
fields-dict_of [] = refl
fields-dict_of ((k, v) ∷ d) = ap (λ r. (k, v) ∷ r) (fields-dict_of d)

pub items-list_of : (l : List Value) → items (list_of l) ≡ l
unfolding items list_of
items-list_of [] = refl
items-list_of (v ∷ l) = ap (λ r. v ∷ r) (items-list_of l)

pub get-insert : (k : String) (v : Value) (d : Dict Value) → get k (Dict.insert k v d) ≡ v
unfolding get get_or
get-insert k v d = rw (get_or, lookup-insert k k v d, ==_refl k) refl
