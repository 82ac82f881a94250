-- ===== src/Planning/Taken.antt =====
-- The vCPUs of the guests of a lab under some presets (rodeo/sizing.py).
use mathlib.Core.Path.{subst}
use rodeo_cli.Base.{
  ◌≡◌, refl, sym, ◌∙◌, ap, ℕ, zero, suc, ◌+◌, ◌*◌, pos, String, true, false, Option, none, some, [],
  ◌∷◌, ◌==◌, ==_refl, ==→≡, string_eq, if◌then◌else◌, arith, Bool-cases, inl, inr,
}
use rodeo_cli.Base.Lists.{keep}
use rodeo_cli.Base.Rows.{has, is_unique}
use rodeo_cli.Base.Dict
use rodeo_cli.Base.Dict.{Dict, lookup-insert}
use rodeo_cli.Planning.Sizing.{
  get, Preset, positive, preset_for, other_presets, with_harvester, compute_instruqt_presets,
  budget_or_default,
}

abbrev pub flavor_of : String × ℕ → String
flavor_of e = e.0

-- The vCPUs of one guest, and of all guests of all flavors.
abbrev pub vcpus_of : Dict Preset → String → ℕ
vcpus_of presets flavor = elim (Dict.lookup flavor presets) [ none ↦ 0 | some p ↦ p.vcpu ]

abbrev pub taken : Dict Preset → Dict ℕ → ℕ
taken presets [] = 0
taken presets ((flavor, n) ∷ c) = vcpus_of presets flavor * n + taken presets c

-- The flavors other than Harvester.
abbrev pub others : Dict ℕ → Dict ℕ
others [] = []
others ((flavor, n) ∷ c) = if flavor == "harvester" then others c else (flavor, n) ∷ others c

-- What the flavors other than Harvester take at their caps.
unfoldable pub caps : Dict ℕ → ℕ
caps [] = 0
caps ((flavor, n) ∷ c) =
    if flavor == "harvester" then caps c else (preset_for flavor).vcpu * n + caps c

other_presets-caps :
    (c : Dict ℕ) (ps : Dict Preset) (r : ℕ) → (other_presets c (ps, r)).1 ≡ r + caps c
unfolding other_presets caps
other_presets-caps [] ps r = omega arith
other_presets-caps ((flavor, n) ∷ c) ps r = elim (Bool-cases (flavor == "harvester")) [
  | inl e ↦ rw e (other_presets-caps c ps r)
  | inr e ↦
      rw
        (
          e,
          other_presets-caps c (Dict.insert flavor (preset_for flavor) ps)
              (r + (preset_for flavor).vcpu * n),
        )
        (omega arith)
]

caps-positive : (c : Dict ℕ) → caps (keep positive c) ≡ caps c
unfolding caps
caps-positive [] = refl
caps-positive ((flavor, zero) ∷ c) = ground (arith, caps-positive c)
caps-positive ((flavor, suc n) ∷ c) = ground (arith, caps-positive c)

lookup-other_presets :
    (j : String) (c : Dict ℕ) (out : Dict Preset × ℕ)
    → (j == "harvester") ≡ false
    → Dict.lookup j (other_presets c out).0
      ≡ (if has flavor_of j c then some (preset_for j) else Dict.lookup j out.0)
unfolding other_presets has
lookup-other_presets j [] out h = refl
lookup-other_presets j ((flavor, n) ∷ c) (ps, r) h = ground (
  arith,
  h,
  ==→≡ j flavor,
  lookup-other_presets j c (ps, r) h,
  lookup-other_presets j c
      (Dict.insert flavor (preset_for flavor) ps, r + (preset_for flavor).vcpu * n) h,
  lookup-insert j flavor (preset_for flavor) ps,
)

lookup-with_harvester :
    (j : String) (budget n : ℕ) (out : Dict Preset × ℕ)
    → (j == "harvester") ≡ false
    → Dict.lookup j (with_harvester budget n out) ≡ Dict.lookup j out.0
unfolding with_harvester
lookup-with_harvester j budget zero (ps, r) h = refl
lookup-with_harvester j budget (suc n) (ps, r) h = lookup-insert j "harvester" _ ps ∙ rw h refl

get-absent : (k : String) (c : Dict ℕ) → has flavor_of k c ≡ false → get c k 0 ≡ 0
unfolding get has Dict.lookup
get-absent k [] h = refl
get-absent k ((flavor, n) ∷ c) h = ground (arith, h, get-absent k c)

has-positive :
    (k : String) (c : Dict ℕ)
    → has flavor_of k c ≡ false
    → has flavor_of k (keep positive c) ≡ false
unfolding has
has-positive k [] h = refl
has-positive k ((flavor, zero) ∷ c) h = has-positive k c (ground (arith, h))
has-positive k ((flavor, suc n) ∷ c) h = ground (arith, h, has-positive k c)

get-cons :
    (k flavor : String) (n : ℕ) (c : Dict ℕ)
    → get ((flavor, n) ∷ c) k 0 ≡ (if k == flavor then n else get c k 0)
unfolding get Dict.lookup
get-cons k flavor n c = ground arith

pub get-positive :
    (k : String) (c : Dict ℕ) → is_unique flavor_of c ≡ true → get (keep positive c) k 0 ≡ get c k 0
unfolding is_unique
get-positive k [] u = refl
get-positive k ((flavor, suc n) ∷ c) u = ground (
  arith,
  u,
  get-cons k flavor (suc n) c,
  get-cons k flavor (suc n) (keep positive c),
  get-positive k c,
)
get-positive k ((flavor, zero) ∷ c) u =
    ground (arith, u, ==→≡ k flavor, get-cons k flavor 0 c, get-absent k c, get-positive k c)

get-nil : (k : String) → get [] k 0 ≡ 0
unfolding get Dict.lookup
get-nil k = refl

taken-harvester :
    (ps : Dict Preset) (n : ℕ) (c : Dict ℕ)
    → taken ps c ≡ taken ps (others c)
    → taken ps (("harvester", n) ∷ c)
      ≡ taken ps (others (("harvester", n) ∷ c))
        + vcpus_of ps "harvester" * get (("harvester", n) ∷ c) "harvester" 0
unfolding get Dict.lookup string_eq
taken-harvester ps n c h = omega (arith, h)

-- All guests are the others and the Harvester nodes.
pub taken-others :
    (ps : Dict Preset) (c : Dict ℕ)
    → is_unique flavor_of c ≡ true
    → taken ps c ≡ taken ps (others c) + vcpus_of ps "harvester" * get c "harvester" 0
unfolding is_unique
taken-others ps [] u = rw (get-nil "harvester") (omega arith)
taken-others ps ((flavor, n) ∷ c) u =
    let rest = taken-others ps c (ground (arith, u)) in
    elim (Bool-cases (flavor == "harvester")) [
      | inl e ↦
          let same = ==→≡ flavor "harvester" e in
          let absent : has flavor_of "harvester" c ≡ false = rw⁻¹ same (ground (arith, u)) in
          let others_only : taken ps c ≡ taken ps (others c) =
            rest ∙ rw (get-absent "harvester" c absent) (omega arith) in
          subst
            (λ f.
              taken ps ((f, n) ∷ c)
              ≡ taken ps (others ((f, n) ∷ c))
                + vcpus_of ps "harvester" * get ((f, n) ∷ c) "harvester" 0)
            (sym same) (taken-harvester ps n c others_only)
      | inr e ↦
          let later : get ((flavor, n) ∷ c) "harvester" 0 ≡ get c "harvester" 0 =
            ground (arith, e, get-cons "harvester" flavor n c) in
          rw (e, later) (omega (arith, rest))
    ]

has-positive_later :
    (j flavor : String) (n : ℕ) (c : Dict ℕ)
    → has flavor_of j (keep positive c) ≡ true
    → has flavor_of j (keep positive ((flavor, n) ∷ c)) ≡ true
unfolding has
has-positive_later j flavor zero c h = h
has-positive_later j flavor (suc n) c h = ground (arith, h)

has-positive_first :
    (flavor : String) (n : ℕ) (c : Dict ℕ)
    → has flavor_of flavor (keep positive ((flavor, suc n) ∷ c)) ≡ true
unfolding has
has-positive_first flavor n c = ground (arith, ==_refl flavor)

taken-caps :
    (ps : Dict Preset) (c : Dict ℕ)
    → ((j : String)
        → (j == "harvester") ≡ false
        → has flavor_of j (keep positive c) ≡ true
        → vcpus_of ps j ≡ (preset_for j).vcpu)
    → taken ps (others c) ≡ caps c
unfolding caps
taken-caps ps [] w = refl
taken-caps ps ((flavor, zero) ∷ c) w =
    let rest = taken-caps ps c (λ j n l. w j n (has-positive_later j flavor 0 c l)) in
    ground (arith, rest)
taken-caps ps ((flavor, suc n) ∷ c) w =
    let rest = taken-caps ps c (λ j n' l. w j n' (has-positive_later j flavor (suc n) c l)) in
    elim (Bool-cases (flavor == "harvester")) [
      | inl e ↦ rw e rest
      | inr e ↦ rw (e, w flavor e (has-positive_first flavor n c), rest) refl
    ]

module _ (seventy : ℕ → ℕ) (cpus : ℕ) (flavor_counts : Dict ℕ) where
  vcpus_of-compute :
      (j : String)
      → (j == "harvester") ≡ false
      → has flavor_of j (keep positive flavor_counts) ≡ true
      → vcpus_of (compute_instruqt_presets seventy (pos cpus) flavor_counts) j ≡ (preset_for j).vcpu
  unfolding compute_instruqt_presets
  vcpus_of-compute j n listed =
      let found : Dict.lookup j (compute_instruqt_presets seventy (pos cpus) flavor_counts)
          ≡ some (preset_for j) =
        lookup-with_harvester j (budget_or_default seventy (pos cpus))
          (get (keep positive flavor_counts) "harvester" 0)
          (other_presets (keep positive flavor_counts) ([], 0)) n
        ∙ lookup-other_presets j (keep positive flavor_counts) ([], 0) n
        ∙ (rw listed refl) in
      ap (λ (o : Option Preset). elim o as (λ x. ℕ) [ none ↦ 0 | some p ↦ p.vcpu ]) found

  -- What the loop over the other flavors reserves is what their guests take.
  pub reserved-taken :
      (other_presets (keep positive flavor_counts) ([], 0)).1
      ≡ taken (compute_instruqt_presets seventy (pos cpus) flavor_counts) (others flavor_counts)
  reserved-taken =
      let looped = other_presets-caps (keep positive flavor_counts) [] 0 in
      let counted = caps-positive flavor_counts in
      let made = compute_instruqt_presets seventy (pos cpus) flavor_counts in
      let total = taken-caps made flavor_counts vcpus_of-compute in
      omega (arith, looped, counted, total)
