-- ===== src/Fleet/Keyed.antt =====
-- The index by id that merge_provisioned_hosts of rodeo/fleet/inventory.py keeps of the hosts.
use mathlib.Core.Option.{some-injective}
use rodeo_cli.Base.{
  ◌≡◌, refl, sym, ◌∙◌, ap, String, Bool, true, false, not, ◌||◌, Option, none, some, List, [], ◌∷◌,
  ◌++◌, ◌==◌, string_eq, contains, if◌then◌else◌, arith, ==→≡, ==_refl, Bool-cases, Option-cases,
  ◌⊎◌, inl, inr,
}
use rodeo_cli.Base.Lists.{all}
use rodeo_cli.Base.Dict
use rodeo_cli.Base.Dict.{Dict, lookup-insert}
use rodeo_cli.Portal.Python.{Python}
use rodeo_cli.Portal.Text.{is_empty}
use rodeo_cli.Config.Entries.{fields-dict_of}
use rodeo_cli.Config.Value.{Value, as_dict, items, dict_of, is_true, get, get_or, str_of}
use rodeo_cli.Fleet.Provisioned.{
  ProvisionedHost, Entry, Merge, fresh_entry, keep_user, new_order, merge_item, merge_items, listed,
  entry_values, index_entry, index_entries,
}

contains-append :
    (xs ys : List String) (a : String) → contains (xs ++ ys) a ≡ (contains xs a || contains ys a)
contains-append [] ys a = refl
contains-append (x ∷ xs) ys a = ground (arith, contains-append xs ys a)

-- The entry of the id j after the items, where o was the entry before them: the last item with that
-- id decides, and a user that was set stays.
unfoldable pub latest : String → List ProvisionedHost → Option Entry → Option Entry
unfolding keep_user fresh_entry
latest j [] o = o
latest j (item ∷ items) o =
    latest j items (if j == item.id then some (keep_user o (fresh_entry item)) else o)

lookup-merge_item :
    (j : String) (item : ProvisionedHost) (m : Merge)
    → Dict.lookup j (merge_item item m).by_id ≡ (
        if j == item.id
        then some (keep_user (Dict.lookup j m.by_id) (fresh_entry item))
        else Dict.lookup j m.by_id)
unfolding merge_item
lookup-merge_item j item m = lookup-insert j item.id _ m.by_id ∙ (elim (Bool-cases (j == item.id)) [
  | inr other ↦ rw (other) refl
  | inl same ↦ rw (same, ==→≡ j item.id same) refl
])

pub lookup-merge_items :
    (j : String) (items : List ProvisionedHost) (m : Merge)
    → Dict.lookup j (merge_items items m).by_id ≡ latest j items (Dict.lookup j m.by_id)
unfolding merge_items latest
lookup-merge_items j [] m = refl
lookup-merge_items j (item ∷ items) m =
    rw (lookup-merge_items j items (merge_item item m), lookup-merge_item j item m) refl

placed-new :
    (o : Option Entry) (i : String) (order : List String)
    → o ≡ none
    → contains (new_order o i order) i ≡ true
unfolding new_order
placed-new none i order h = ground (arith, contains-append order (i ∷ []) i, ==_refl i)
placed-new (some e) i order h = cc

placed-old :
    (o : Option Entry) (e : Entry) (i : String) (order : List String)
    → o ≡ some e
    → contains order i ≡ true
    → contains (new_order o i order) i ≡ true
unfolding new_order
placed-old none e i order h at = cc
placed-old (some d) e i order h at = at

stays-new_order :
    (o : Option Entry) (i k : String) (order : List String)
    → contains order k ≡ true
    → contains (new_order o i order) k ≡ true
unfolding new_order
stays-new_order none i k order at = ground (arith, contains-append order (i ∷ []) k)
stays-new_order (some e) i k order at = at

some-if :
    (c : Bool) (e d : Entry) (o : Option Entry)
    → (if c then some e else o) ≡ some d
    → ((c ≡ true) × (e ≡ d)) ⊎ ((c ≡ false) × (o ≡ some d))
some-if true e d o h = inl (refl, some-injective e d h)
some-if false e d o h = inr (refl, h)

abbrev pub pick : Bool → Option Entry → Option Entry → Option Entry
pick true (some e) o = some e
pick true none o = o
pick false e o = o

listed-nil : (by_id : Dict Entry) → listed by_id [] ≡ []
unfolding listed
listed-nil by_id = refl

module _ (by_id : Dict Entry) (i : String) where
  listed-none :
      (order : List String)
      → Dict.lookup i by_id ≡ none
      → listed by_id (i ∷ order) ≡ listed by_id order
  unfolding listed
  listed-none order h = rw (listed, h) refl

  listed-some :
      (order : List String) (e : Entry)
      → Dict.lookup i by_id ≡ some e
      → listed by_id (i ∷ order) ≡ e ∷ listed by_id order
  unfolding listed
  listed-some order e h = rw (listed, h) refl

  pick-none :
      (j : String) (c : Bool) (o : Option Entry)
      → Dict.lookup i by_id ≡ none
      → pick c (Dict.lookup j by_id) o ≡ pick (j == i || c) (Dict.lookup j by_id) o
  pick-none j true o h = elim (Bool-cases (j == i)) [
    | inl same ↦ rw (same) refl
    | inr other ↦ rw (other) refl
  ]
  pick-none j false o h = elim (Bool-cases (j == i)) [
    | inl same ↦ rw (same, ==→≡ j i same, h) refl
    | inr other ↦ rw (other) refl
  ]

  pick-some :
      (j : String) (c : Bool) (o : Option Entry) (e : Entry)
      → Dict.lookup i by_id ≡ some e
      → pick c (Dict.lookup j by_id) (if j == i then some e else o)
        ≡ pick (j == i || c) (Dict.lookup j by_id) o
  pick-some j c o e h = elim (Bool-cases (j == i)) [
    | inr other ↦ rw (other) refl
    | inl same ↦
        rw (same, ==→≡ j i same, h)
          (elim c as (λ d. pick d (some e) (some e) ≡ some e) [ true ↦ refl | false ↦ refl ])
  ]

module _ (py : Python) where
  -- The entry has that id, and the id counts.
  abbrev pub HasId : String → Entry → Type 0
  HasId i e = (is_true (get "id" e) ≡ true) × (str_of py (get "id" e) ≡ i)

  -- Each entry is kept under its own id, and has a place in the order.
  abbrev pub IsKeyed : Merge → Type 0
  IsKeyed m =
      (i : String) (e : Entry)
      → Dict.lookup i m.by_id ≡ some e
      → HasId i e × (contains m.order i ≡ true)

  by_id-index_entry :
      (i : String) (e : Entry) (m : Merge)
      → HasId i e
      → (index_entry py (as_dict (Value.dict (dict_of e))) m).by_id ≡ Dict.insert i e m.by_id
  unfolding index_entry as_dict
  by_id-index_entry i e m (p, q) = rw (fields-dict_of e, p, q) refl

  -- Entries that are read back are found as they were kept.
  pub lookup-index_entries :
      (by_id : Dict Entry) (order : List String) (m : Merge) (j : String)
      → ((i : String) (e : Entry) → Dict.lookup i by_id ≡ some e → HasId i e)
      → Dict.lookup j (index_entries py (entry_values (listed by_id order)) m).by_id
        ≡ pick (contains order j) (Dict.lookup j by_id) (Dict.lookup j m.by_id)
  unfolding index_entries entry_values
  lookup-index_entries by_id [] m j w = rw (listed-nil by_id) refl
  lookup-index_entries by_id (i ∷ order) m j w = elim (Option-cases (Dict.lookup i by_id)) [
    | inl absent ↦
        rw (listed-none by_id i order absent, lookup-index_entries by_id order m j w)
          (pick-none by_id i j (contains order j) (Dict.lookup j m.by_id) absent)
    | inr (e, found) ↦
        let first = index_entry py (as_dict (Value.dict (dict_of e))) m in
        rw
          (
            listed-some by_id i order e found,
            lookup-index_entries by_id order first j w,
            by_id-index_entry i e m (w i e found),
            lookup-insert j i e m.by_id,
          )
          (pick-some by_id i j (contains order j) (Dict.lookup j m.by_id) e found)
  ]

  user-HasId :
      (c : Bool) (v : Value) (item : ProvisionedHost)
      → is_empty item.id ≡ false
      → HasId item.id (if c then Dict.insert "ssh_user" v (fresh_entry item) else fresh_entry item)
  unfolding fresh_entry is_true str_of get get_or string_eq Dict.lookup Dict.insert
  user-HasId true v item h = (ap not h, refl)
  user-HasId false v item h = (ap not h, refl)

  fresh_entry-HasId :
      (o : Option Entry) (item : ProvisionedHost)
      → is_empty item.id ≡ false
      → HasId item.id (keep_user o (fresh_entry item))
  unfolding keep_user fresh_entry is_true str_of get get_or string_eq Dict.lookup Dict.insert
  fresh_entry-HasId none item h = (ap not h, refl)
  fresh_entry-HasId (some prev) item h = user-HasId _ _ item h

  insert-IsKeyed :
      (i : String) (e : Entry) (m : Merge) (order : List String) (written : List Entry)
      → HasId i e
      → contains order i ≡ true
      → ((k : String) → contains m.order k ≡ true → contains order k ≡ true)
      → IsKeyed m
      → IsKeyed (record { by_id = Dict.insert i e m.by_id; order = order; written = written })
  insert-IsKeyed i e m order written own placed stays w k d h =
      elim (some-if (k == i) e d (Dict.lookup k m.by_id) (sym (lookup-insert k i e m.by_id) ∙ h)) [
        | inl (same, now) ↦ rw (sym now, ==→≡ k i same) (own, placed)
        | inr (_, before) ↦ let (owned, at) = w k d before in (owned, stays k at)
      ]

  pub merge_item-IsKeyed :
      (item : ProvisionedHost) (m : Merge)
      → is_empty item.id ≡ false
      → IsKeyed m
      → IsKeyed (merge_item item m)
  unfolding merge_item
  merge_item-IsKeyed item m h w =
      let o = Dict.lookup item.id m.by_id in
      insert-IsKeyed item.id (keep_user o (fresh_entry item)) m (new_order o item.id m.order)
        (m.written ++ (keep_user o (fresh_entry item) ∷ [])) (fresh_entry-HasId o item h)
        (elim (Option-cases o) [
          | inl new ↦ placed-new o item.id m.order new
          | inr (e, old) ↦ placed-old o e item.id m.order old (w item.id e old).1
        ])
        (λ k at. stays-new_order o item.id k m.order at) w

  pub merge_items-IsKeyed :
      (items : List ProvisionedHost) (m : Merge)
      → all (λ p. not (is_empty p.id)) items ≡ true
      → IsKeyed m
      → IsKeyed (merge_items items m)
  unfolding merge_items
  merge_items-IsKeyed [] m h w = w
  merge_items-IsKeyed (item ∷ items) m h w =
      merge_items-IsKeyed items (merge_item item m) (ground arith)
        (merge_item-IsKeyed item m (ground arith) w)

  index_entry-IsKeyed : (o : Option Entry) (m : Merge) → IsKeyed m → IsKeyed (index_entry py o m)
  unfolding index_entry
  index_entry-IsKeyed none m w = w
  index_entry-IsKeyed (some e) m w = elim (Bool-cases (is_true (get "id" e))) [
    | inr no_id ↦ rw (no_id) w
    | inl id ↦
        let hid = str_of py (get "id" e) in
        rw (id) (
          insert-IsKeyed hid e m (m.order ++ (hid ∷ [])) m.written (id, refl)
            (ground (arith, contains-append m.order (hid ∷ []) hid, ==_refl hid))
            (λ k at. ground (arith, contains-append m.order (hid ∷ []) k)) w)
  ]

  pub index_entries-IsKeyed :
      (l : List Value) (m : Merge) → IsKeyed m → IsKeyed (index_entries py l m)
  unfolding index_entries
  index_entries-IsKeyed [] m w = w
  index_entries-IsKeyed (v ∷ l) m w =
      index_entries-IsKeyed l (index_entry py (as_dict v) m) (index_entry-IsKeyed (as_dict v) m w)
