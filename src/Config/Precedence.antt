-- ===== src/Config/Precedence.antt =====
-- Which value stands at a path after _deep_merge of rodeo/config.py.
use mathlib.Core.Path.{subst}
use rodeo_cli.Base.{
  ◌≡◌, refl, sym, ◌∙◌, ap, String, Bool, true, false, ◌&&◌, Option, none, some, List, [], ◌∷◌, ◌==◌,
  string_eq, if◌then◌else◌, arith, ==→≡, Bool-cases, inl, inr,
}
use rodeo_cli.Base.Dict
use rodeo_cli.Base.Dict.{Dict, keys, lookup-insert}
use rodeo_cli.Base.Rows.{has, is_unique}
use rodeo_cli.Config.Entries.{fields-dict_of}
use rodeo_cli.Config.Value.{Value, Fields, fields, dict_of}
use rodeo_cli.Config.Merge.{merge_value, merge_fields, deep_merge}

abbrev pub key_of : String × Value → String
key_of f = f.0

-- The value at a key of a mapping, and at a path: cfg["a"]["b"].
unfoldable pub child : String → Option Value → Option Value
unfolding fields Dict.lookup
child k (some (Value.dict r)) = Dict.lookup k (fields r)
child k _ = none

unfoldable pub find : List String → Option Value → Option Value
unfolding child
find [] o = o
find (k ∷ path) o = find path (child k o)

-- A mapping or nothing; and whether all values above the path are.
abbrev pub opens : Option Value → Bool
opens none = true
opens (some (Value.dict r)) = true
opens (some _) = false

unfoldable pub is_open : List String → Option Value → Bool
unfolding child
is_open [] o = true
is_open (k ∷ path) o = opens o && is_open path (child k o)

-- The mappings above the path hold each key once.
abbrev pub has_distinct_keys : Option Value → Bool
has_distinct_keys (some (Value.dict r)) = is_unique key_of (fields r)
has_distinct_keys _ = true

unfoldable pub are_distinct : List String → Option Value → Bool
unfolding child is_unique fields
are_distinct [] o = true
are_distinct (k ∷ path) o = has_distinct_keys o && are_distinct path (child k o)

-- What two values make.
abbrev pub merge_option : Option Value → Option Value → Option Value
merge_option b none = b
merge_option b (some v) = some (merge_value b v)

lookup-absent : (k : String) (d : Dict Value) → has key_of k d ≡ false → Dict.lookup k d ≡ none
unfolding has Dict.lookup
lookup-absent k [] h = refl
lookup-absent k ((j, v) ∷ d) h = ground (arith, lookup-absent k d)

merge_field :
    (b w : Option Value) (c : Bool) (v : Value)
    → (c ≡ true → w ≡ none)
    → merge_option (if c then some (merge_value b v) else b) w
      ≡ merge_option b (if c then some v else w)
merge_field b w true v h = rw (h refl) refl
merge_field b w false v h = refl

lookup-merge_fields :
    (j : String) (d : Dict Value) (f : Fields)
    → is_unique key_of (fields f) ≡ true
    → Dict.lookup j (merge_fields d f) ≡ merge_option (Dict.lookup j d) (Dict.lookup j (fields f))
unfolding merge_fields fields is_unique Dict.lookup
lookup-merge_fields j d Fields.no_fields u = refl
lookup-merge_fields j d (Fields.field k v r) u =
    let w = merge_value (Dict.lookup k d) v in
    lookup-merge_fields j (Dict.insert k w d) r (ground arith)
    ∙ ap (λ o. merge_option o (Dict.lookup j (fields r))) (lookup-insert j k w d)
    ∙ (elim (Bool-cases (j == k)) [
      | inr other ↦ rw (other) refl
      | inl same ↦
          let gone : Dict.lookup j (fields r) ≡ none =
            lookup-absent j (fields r) (rw (==→≡ j k same) (ground arith)) in
          rw (same, gone, ==→≡ j k same) refl
    ])

merge-none : (o : Option Value) → merge_option none o ≡ o
unfolding merge_value
merge-none none = refl
merge-none (some v) = ground arith

child-merge_dict :
    (k : String) (b : Option Value) (o : Fields)
    → is_unique key_of (fields o) ≡ true
    → child k (merge_option b (some (Value.dict o)))
      ≡ merge_option (child k b) (Dict.lookup k (fields o))
unfolding child merge_value
child-merge_dict k (some (Value.dict b)) o u =
    ap (Dict.lookup k) (fields-dict_of (merge_fields (fields b) o))
    ∙ lookup-merge_fields k (fields b) o u
child-merge_dict k none o u = sym (merge-none (Dict.lookup k (fields o)))
child-merge_dict k (some Value.null) o u = sym (merge-none (Dict.lookup k (fields o)))
child-merge_dict k (some (Value.bool x)) o u = sym (merge-none (Dict.lookup k (fields o)))
child-merge_dict k (some (Value.int x)) o u = sym (merge-none (Dict.lookup k (fields o)))
child-merge_dict k (some (Value.text x)) o u = sym (merge-none (Dict.lookup k (fields o)))
child-merge_dict k (some (Value.other x)) o u = sym (merge-none (Dict.lookup k (fields o)))
child-merge_dict k (some (Value.list x)) o u = sym (merge-none (Dict.lookup k (fields o)))

-- Merged values, one key down.
child-merge_option :
    (k : String) (b o : Option Value)
    → opens o ≡ true
    → has_distinct_keys o ≡ true
    → child k (merge_option b o) ≡ merge_option (child k b) (child k o)
unfolding child
child-merge_option k b none p u = refl
child-merge_option k b (some (Value.dict o)) p u = child-merge_dict k b o u
child-merge_option k b (some Value.null) p u = cc
child-merge_option k b (some (Value.bool x)) p u = cc
child-merge_option k b (some (Value.int x)) p u = cc
child-merge_option k b (some (Value.text x)) p u = cc
child-merge_option k b (some (Value.other x)) p u = cc
child-merge_option k b (some (Value.list x)) p u = cc

find-merge_option :
    (path : List String) (b o : Option Value)
    → is_open path o ≡ true
    → are_distinct path o ≡ true
    → find path (merge_option b o) ≡ merge_option (find path b) (find path o)
unfolding find is_open are_distinct
find-merge_option [] b o p u = refl
find-merge_option (k ∷ path) b o p u =
    ap (find path) (child-merge_option k b o (ground arith) (ground arith))
    ∙ find-merge_option path (child k b) (child k o) (ground arith) (ground arith)

-- What stands at a path of a configuration that is merged, after what stands there in the base and in
-- the override: the base's value where the override has none; a mapping, where both have mappings;
-- and otherwise the override's value.
abbrev pub IsMerged : Option Value → Option Value → Option Value → Type 0
IsMerged b none r = r ≡ b
IsMerged (some (Value.dict b)) (some (Value.dict o)) r = (m : Fields) × (r ≡ some (Value.dict m))
IsMerged b (some v) r = r ≡ some v

merge_option-IsMerged : (b o : Option Value) → IsMerged b o (merge_option b o)
unfolding merge_value
merge_option-IsMerged b none = refl
merge_option-IsMerged (some (Value.dict b)) (some (Value.dict o)) = (_, refl)
merge_option-IsMerged none (some v) = refl
merge_option-IsMerged (some Value.null) (some v) = refl
merge_option-IsMerged (some (Value.bool x)) (some v) = refl
merge_option-IsMerged (some (Value.int x)) (some v) = refl
merge_option-IsMerged (some (Value.text x)) (some v) = refl
merge_option-IsMerged (some (Value.other x)) (some v) = refl
merge_option-IsMerged (some (Value.list x)) (some v) = refl
merge_option-IsMerged (some (Value.dict x)) (some Value.null) = refl
merge_option-IsMerged (some (Value.dict x)) (some (Value.bool y)) = refl
merge_option-IsMerged (some (Value.dict x)) (some (Value.int y)) = refl
merge_option-IsMerged (some (Value.dict x)) (some (Value.text y)) = refl
merge_option-IsMerged (some (Value.dict x)) (some (Value.other y)) = refl
merge_option-IsMerged (some (Value.dict x)) (some (Value.list y)) = refl

-- Where everything that the override holds above a path is a mapping with distinct keys, the merged
-- configuration has at the path the base's value, if the override has none there; a mapping, if both
-- have mappings there; and otherwise the override's value.
pub find-deep_merge :
    (path : List String) (base override : Dict Value)
    → is_open path (some (Value.dict (dict_of override))) ≡ true
    → are_distinct path (some (Value.dict (dict_of override))) ≡ true
    → IsMerged
        (find path (some (Value.dict (dict_of base))))
        (find path (some (Value.dict (dict_of override))))
        (find path (some (Value.dict (dict_of (deep_merge base override)))))
unfolding deep_merge
find-deep_merge path base override p u =
    let below = find path (some (Value.dict (dict_of base))) in
    let above = find path (some (Value.dict (dict_of override))) in
    let same =
      ap (λ d. find path (some (Value.dict (dict_of d))))
        (ap (λ b. merge_fields b (dict_of override)) (sym (fields-dict_of base)))
      ∙ find-merge_option path (some (Value.dict (dict_of base))) _ p u in
    subst (λ r. IsMerged below above r) (sym same) (merge_option-IsMerged below above)
