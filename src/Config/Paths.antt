-- ===== src/Config/Paths.antt =====
-- What _set_path of rodeo/config.py sets, and what it leaves.
use rodeo_cli.Base.{
  ℕ, ◌≡◌, refl, sym, ◌∙◌, ap, String, Bool, true, false, Option, none, some, List, [], ◌∷◌, ◌==◌,
  string_eq, if◌then◌else◌, ==→≡, ==_refl, Bool-cases, inl, inr, arith,
}
use rodeo_cli.Base.Dict
use rodeo_cli.Base.Dict.{Dict, lookup-insert}
use rodeo_cli.Planning.Instances.{split_on}
use rodeo_cli.Config.Entries.{fields-dict_of}
use rodeo_cli.Config.Value.{Value, fields, dict_of}
use rodeo_cli.Fleet.Loading.{is_nil}
use rodeo_cli.Config.Merge.{entries, mapping_at, set_parts, set_path}
use rodeo_cli.Config.Precedence.{child, find}

-- A configuration as a value.
abbrev pub whole : Dict Value → Option Value
whole d = some (Value.dict (dict_of d))

-- The paths part at a key, before either ends.
unfoldable pub diverge : List String → List String → Bool
diverge (k ∷ p) (j ∷ q) = if j == k then diverge p q else true
diverge _ _ = false

child-whole : (k : String) (d : Dict Value) → child k (whole d) ≡ Dict.lookup k d
unfolding child
child-whole k d = ap (Dict.lookup k) (fields-dict_of d)

child-insert :
    (k j : String) (v : Value) (d : Dict Value)
    → child j (whole (Dict.insert k v d)) ≡ (if j == k then some v else Dict.lookup j d)
child-insert k j v d = child-whole j (Dict.insert k v d) ∙ lookup-insert j k v d

find-set_parts :
    (k : String) (parts : List String) (v : Value) (d : Dict Value)
    → find (k ∷ parts) (whole (set_parts (k ∷ parts) v d)) ≡ some v
unfolding find set_parts
find-set_parts k [] v d = child-insert k k v d ∙ (rw (==_refl k) refl)
find-set_parts k (j ∷ parts) v d =
    let below = set_parts (j ∷ parts) v (mapping_at k d) in
    let same : child k (whole (Dict.insert k (Value.dict (dict_of below)) d)) ≡ whole below =
      child-insert k k (Value.dict (dict_of below)) d ∙ (rw (==_refl k) refl) in
    ap (find (j ∷ parts)) same ∙ find-set_parts j parts v (mapping_at k d)

child-entries : (i : String) (o : Option Value) → child i (whole (entries o)) ≡ child i o
unfolding child entries fields dict_of
child-entries i none = refl
child-entries i (some (Value.dict r)) = ap (Dict.lookup i) (fields-dict_of (fields r))
child-entries i (some Value.null) = refl
child-entries i (some (Value.bool x)) = refl
child-entries i (some (Value.int x)) = refl
child-entries i (some (Value.text x)) = refl
child-entries i (some (Value.other x)) = refl
child-entries i (some (Value.list x)) = refl

-- Below an entry that is no mapping there was nothing, and there is nothing in an empty one.
find-entries :
    (p q : List String) (o : Option Value)
    → diverge p q ≡ true
    → find q (whole (entries o)) ≡ find q o
unfolding find diverge
find-entries [] q o h = cc
find-entries (k ∷ p) [] o h = cc
find-entries (k ∷ p) (j ∷ q) o h = ap (find q) (child-entries j o)

find-set_parts_apart :
    (p q : List String) (v : Value) (d : Dict Value)
    → diverge p q ≡ true
    → find q (whole (set_parts p v d)) ≡ find q (whole d)
unfolding find set_parts diverge mapping_at
find-set_parts_apart [] q v d h = cc
find-set_parts_apart (k ∷ p) [] v d h = cc
find-set_parts_apart (k ∷ []) (j ∷ q) v d h = elim (Bool-cases (j == k)) [
  | inl same ↦ ground arith
  | inr other ↦
      let kept : child j (whole (Dict.insert k v d)) ≡ child j (whole d) =
        child-insert k j v d ∙ (rw (other) (sym (child-whole j d))) in
      ap (find q) kept
]
find-set_parts_apart (k ∷ i ∷ p) (j ∷ q) v d h =
    let below = set_parts (i ∷ p) v (mapping_at k d) in
    let w = Value.dict (dict_of below) in
    elim (Bool-cases (j == k)) [
      | inr other ↦
          let kept : child j (whole (Dict.insert k w d)) ≡ child j (whole d) =
            child-insert k j w d ∙ (rw (other) (sym (child-whole j d))) in
          ap (find q) kept
      | inl same ↦
          let made : child j (whole (Dict.insert k w d)) ≡ whole below =
            child-insert k j w d ∙ (rw (same) refl) in
          ap (find q) made
          ∙ find-set_parts_apart (i ∷ p) q v (mapping_at k d) (ground arith)
          ∙ find-entries (i ∷ p) q (Dict.lookup k d) (ground arith)
          ∙ ap (find q) (ap (λ x. Dict.lookup x d) (sym (==→≡ j k same)) ∙ sym (child-whole j d))
    ]

split_on-is_nil : (c : ℕ) (s : String) → is_nil (split_on c s) ≡ false
unfolding split_on is_nil
split_on-is_nil c String.[] = refl
split_on-is_nil c (String.◌∷◌ d s) = ground arith

find-set_all :
    (parts : List String) (v : Value) (d : Dict Value)
    → is_nil parts ≡ false
    → find parts (whole (set_parts parts v d)) ≡ some v
unfolding is_nil
find-set_all [] v d h = cc
find-set_all (k ∷ parts) v d h = find-set_parts k parts v d

-- After `-P a.b=v` the value at the path a.b is v, and the value at every path that parts from it
-- is what it was.
pub find-set_path :
    (dotted : String) (v : Value) (d : Dict Value)
    → (find (split_on 46 dotted) (whole (set_path dotted v d)) ≡ some v)
      × ((path : List String)
          → diverge (split_on 46 dotted) path ≡ true
          → find path (whole (set_path dotted v d)) ≡ find path (whole d))
unfolding set_path
find-set_path dotted v d = (
  find-set_all (split_on 46 dotted) v d (split_on-is_nil 46 dotted),
  λ path h. find-set_parts_apart (split_on 46 dotted) path v d h,
)
