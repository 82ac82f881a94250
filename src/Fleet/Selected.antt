-- ===== src/Fleet/Selected.antt =====
-- What select_hosts of rodeo/fleet/inventory.py selects, and when it does.
use rodeo_cli.Base.{
  ◌≡◌, refl, sym, ◌∙◌, ap, ◌↔◌, String, Bool, true, false, not, ◌&&◌, ◌||◌, List, [], ◌∷◌, map, ok,
  ok-injective, refuse-ok, bind-ok, bind-of-ok, refuse-of-false, ◌==◌, string_eq, contains, arith,
  ==→≡, Bool-cases, inl, inr,
}
use rodeo_cli.Base.Lists.{any, all, keep}
use rodeo_cli.Base.Dict.{Dict}
use rodeo_cli.Fleet.Inventory.{FleetHost, FleetInventory}
use rodeo_cli.Fleet.Loading.{is_nil}
use rodeo_cli.Fleet.Selecting.{
  distinct, unknown_ids, has_label, filter_labels, filter_ids, select_hosts,
}

-- A host that was asked for: by its id, if ids are given, and by each label.
abbrev pub is_wanted : List String → Dict String → FleetHost → Bool
is_wanted ids labels h = (is_nil ids || contains ids h.id) && all (λ f. has_label f.0 f.1 h) labels

abbrev pub are_known : List String → List FleetHost → Bool
are_known ids hosts = all (λ i. contains (map (λ h. h.id) hosts) i) ids

keep-keep :
    (p q : FleetHost → Bool) (l : List FleetHost) → keep p (keep q l) ≡ keep (λ h. q h && p h) l
keep-keep p q [] = refl
keep-keep p q (h ∷ l) = ground (arith, keep-keep p q l)

keep-true : (l : List FleetHost) → keep (λ h. true) l ≡ l
keep-true [] = refl
keep-true (h ∷ l) = ap (λ r. h ∷ r) (keep-true l)

filter_labels-keep :
    (labels : Dict String) (hosts : List FleetHost)
    → filter_labels labels hosts ≡ keep (λ h. all (λ f. has_label f.0 f.1 h) labels) hosts
unfolding filter_labels
filter_labels-keep [] hosts = sym (keep-true hosts)
filter_labels-keep ((k, v) ∷ labels) hosts =
    filter_labels-keep labels (keep (has_label k v) hosts)
    ∙ keep-keep (λ h. all (λ f. has_label f.0 f.1 h) labels) (has_label k v) hosts

any_of_contains :
    (p : String → Bool) (s : String) (l : List String)
    → contains l s ≡ true
    → p s ≡ true
    → any p l ≡ true
any_of_contains p s [] h e = h
any_of_contains p s (t ∷ l) h e = elim (Bool-cases (s == t)) [
  | inl same ↦ ground (arith, ap p (==→≡ s t same))
  | inr other ↦ ground (arith, any_of_contains p s l)
]

any-distinct : (p : String → Bool) (l : List String) → any p (distinct l) ≡ any p l
unfolding distinct
any-distinct p [] = refl
any-distinct p (s ∷ l) = ground (arith, any-distinct p l, any_of_contains p s (distinct l))

is_nil-keep : (p : String → Bool) (l : List String) → is_nil (keep p l) ≡ not (any p l)
unfolding is_nil
is_nil-keep p [] = refl
is_nil-keep p (s ∷ l) = ground (arith, is_nil-keep p l)

all-any : (p : String → Bool) (l : List String) → not (any (λ s. not (p s)) l) ≡ all p l
all-any p [] = refl
all-any p (s ∷ l) = ground (arith, all-any p l)

is_nil-unknown_ids :
    (ids : List String) (hosts : List FleetHost)
    → is_nil (unknown_ids ids hosts) ≡ are_known ids hosts
unfolding unknown_ids
is_nil-unknown_ids ids hosts =
    let known = contains (map (λ h. h.id) hosts) in
    is_nil-keep (λ i. not (known i)) (distinct ids)
    ∙ ap not (any-distinct (λ i. not (known i)) ids)
    ∙ all-any known ids

filter_ids-keep :
    (ids : List String) (hosts named : List FleetHost)
    → filter_ids ids hosts ≡ ok named
    → (are_known ids hosts ≡ true) × (named ≡ keep (λ h. is_nil ids || contains ids h.id) hosts)
unfolding filter_ids is_nil
filter_ids-keep [] hosts named h =
    let e : hosts ≡ named = ok-injective h in (refl, sym e ∙ sym (keep-true hosts))
filter_ids-keep (i ∷ ids) hosts named h =
    let (known, e) = refuse-ok _ _ _ named h in
    let same : keep (λ h. contains (i ∷ ids) h.id) hosts ≡ named = ok-injective e in
    (ground (arith, known, is_nil-unknown_ids (i ∷ ids) hosts), sym same)

filter_ids-known :
    (ids : List String) (hosts : List FleetHost)
    → are_known ids hosts ≡ true
    → filter_ids ids hosts ≡ ok (keep (λ h. is_nil ids || contains ids h.id) hosts)
unfolding filter_ids is_nil
filter_ids-known [] hosts k = ap ok (sym (keep-true hosts))
filter_ids-known (i ∷ ids) hosts k =
    refuse-of-false _ _ _ (ap not (is_nil-unknown_ids (i ∷ ids) hosts ∙ k))

-- select_hosts returns just if every id that was given is a host's and some host is wanted; then it
-- returns the wanted hosts, all of them, in the order of the inventory.
pub select_hosts_iff :
    (inv : FleetInventory) (ids : List String) (labels : Dict String) (selected : List FleetHost)
    → (select_hosts inv ids labels ≡ ok selected) ↔ (
        (are_known ids inv.hosts ≡ true)
        × (is_nil selected ≡ false)
        × (selected ≡ keep (is_wanted ids labels) inv.hosts))
unfolding select_hosts
select_hosts_iff inv ids labels selected = (
  λ h.
      let (named, p, e1) = bind-ok _ _ selected h in
      let (known, q) = filter_ids-keep ids inv.hosts named p in
      let (some_left, e2) = refuse-ok _ _ _ selected e1 in
      let same : filter_labels labels named ≡ selected = ok-injective e2 in
      (
        known,
        ap is_nil (sym same) ∙ some_left,
        sym same
            ∙ filter_labels-keep labels named
            ∙ ap (keep (λ h. all (λ f. has_label f.0 f.1 h) labels)) q
            ∙ keep-keep _ _ inv.hosts,
      ),
  λ (known, left, same).
      let named = keep (λ h. is_nil ids || contains ids h.id) inv.hosts in
      let wanted : filter_labels labels named ≡ selected =
        filter_labels-keep labels named ∙ keep-keep _ _ inv.hosts ∙ sym same in
      bind-of-ok _ _ named (filter_ids-known ids inv.hosts known)
      ∙ refuse-of-false _ _ _ (ap is_nil wanted ∙ left)
      ∙ ap ok wanted,
)
