-- ===== src/Planning/Budget.antt =====
-- The presets of rodeo/sizing.py against the budget, and a second writing of them.
use Prim.Native.Nat.{max, min}
use native.Mathlib.Nat.{div-mul-le_self, mul-le-mul_right}
use mathlib.Core.Option.{some-injective}
use rodeo_cli.Base.{
  true, ◌≡◌, refl, sym, ◌∙◌, ap, ℕ, zero, suc, ◌+◌, ◌-◌, ◌*◌, ◌/◌, ◌≤◌, ℤ, pos, String, Option,
  none, some, [], ◌∷◌, ◌⊎◌, inl, inr, Bool-cases, ◌==◌, ==_refl, ==→≡, string_eq, nat_eq, option_eq,
  ltb, leb, if◌then◌else◌, arith,
}
use rodeo_cli.Base.Lists.{keep}
use rodeo_cli.Base.Dict
use rodeo_cli.Base.Dict.{Dict, lookup-insert}
use rodeo_cli.Base.Rows.{is_unique}
use rodeo_cli.Planning.Taken.{
  flavor_of, vcpus_of, taken, others, reserved-taken, get-positive, taken-others,
}
use rodeo_cli.Planning.Sizing.{
  get, Preset, positive, instruqt_vcpu_budget, budget_or_default, preset_for, other_presets,
  harvester_vcpu, with_harvester, compute_instruqt_presets, Block, set_field, set_block,
}

-- What is relied on of `int(n * 0.70)`: it is not more than seven tenths of n.
pub record IsSeventy (seventy : ℕ → ℕ) : Type 0 where
  pub bound : (n : ℕ) → seventy n * 10 ≤ n * 7

other_presets-harvester :
    (counts : Dict ℕ) (out : Dict Preset × ℕ)
    → Dict.lookup "harvester" (other_presets counts out).0 ≡ Dict.lookup "harvester" out.0
unfolding other_presets
other_presets-harvester [] out = refl
other_presets-harvester ((flavor, n) ∷ counts) (presets, reserved) =
    elim (Bool-cases (flavor == "harvester")) [
      | inl e ↦ rw e (other_presets-harvester counts (presets, reserved))
      | inr e ↦ rw e (
          other_presets-harvester counts _
          ∙ lookup-insert "harvester" flavor (preset_for flavor) presets
          ∙ ground (arith, e, ==→≡ "harvester" flavor, ==_refl flavor))
    ]

harvester_vcpu-bounds :
    (budget reserved n : ℕ)
    → (4 ≤ harvester_vcpu budget reserved n) × (harvester_vcpu budget reserved n ≤ 8)
unfolding harvester_vcpu
harvester_vcpu-bounds budget reserved n = ground arith

share_cases :
    (q : ℕ)
    → (max 4 (min 8 (if ltb 0 q then q else 4)) ≤ 4)
      ⊎ (max 4 (min 8 (if ltb 0 q then q else 4)) ≤ q)
share_cases q = elim (Bool-cases (leb q 4)) [
  | inl e ↦ inl (ground arith)
  | inr e ↦ inr (ground arith)
]

harvester_vcpu-fits :
    (budget reserved n : ℕ)
    → reserved + 4 * n ≤ budget
    → reserved + harvester_vcpu budget reserved n * n ≤ budget
unfolding harvester_vcpu
harvester_vcpu-fits budget reserved n h =
    let q = (budget - reserved) / n in
    let share = div-mul-le_self (budget - reserved) n in
    elim (share_cases q) [
      | inl l ↦ let m = mul-le-mul_right n l in omega (arith, m, h)
      | inr l ↦ let m = mul-le-mul_right n l in omega (arith, m, share, h)
    ]

module _ (seventy : ℕ → ℕ) where
  -- The budget of a host of two CPUs or more is within seven tenths of it.
  budget_within :
      IsSeventy seventy
      → (cpus : ℕ) → 2 ≤ cpus
      → budget_or_default seventy (pos cpus) * 10 ≤ cpus * 7
  unfolding budget_or_default instruqt_vcpu_budget
  budget_within s zero h = absurd (omega arith)
  budget_within s (suc n) h =
      let b = s.bound (suc n) in
      elim (Bool-cases (leb (seventy (suc n)) 1)) [
        | inl e ↦ ground (arith, b)
        | inr e ↦ ground (arith, b)
      ]

  module _ (host_cpus : ℤ) (flavor_counts : Dict ℕ) where
    abbrev counts : Dict ℕ
    counts = keep positive flavor_counts

    -- What the other flavors take, and the number of Harvester nodes.
    abbrev reserved : ℕ
    reserved = (other_presets counts ([], 0)).1

    abbrev harvesters : ℕ
    harvesters = get counts "harvester" 0

    with_harvester-lookup :
        (budget n : ℕ) (out : Dict Preset × ℕ) (p : Preset)
        → Dict.lookup "harvester" out.0 ≡ none
        → Dict.lookup "harvester" (with_harvester budget n out) ≡ some p
        → p ≡ record { memory_mib = 20480; vcpu = harvester_vcpu budget out.1 n }
    with_harvester-lookup budget zero (presets, r) p free h = absurd (unfold with_harvester in cc)
    with_harvester-lookup budget (suc n) (presets, r) p free h =
        let made : Preset = record { memory_mib = 20480; vcpu = harvester_vcpu budget r (suc n) } in
        let there : Dict.lookup "harvester" (Dict.insert "harvester" made presets) ≡ some made =
          lookup-insert "harvester" "harvester" made presets
          ∙ ground (arith, ==_refl {A = String} "harvester") in
        let found : Dict.lookup "harvester" (Dict.insert "harvester" made presets) ≡ some p =
          unfold with_harvester in h in
        some-injective p made (sym found ∙ there)

    preset_lem :
        (p : Preset)
        → Dict.lookup "harvester" (compute_instruqt_presets seventy host_cpus flavor_counts)
          ≡ some p
        → p.vcpu ≡ harvester_vcpu (budget_or_default seventy host_cpus) reserved harvesters
    preset_lem p h =
        let free : Dict.lookup "harvester" (other_presets counts ([], 0)).0 ≡ none =
          unfold Dict.lookup in other_presets-harvester counts ([], 0) in
        ap (λ (q : Preset). q.vcpu)
          (with_harvester-lookup (budget_or_default seventy host_cpus) harvesters
            (other_presets counts ([], 0)) p free (unfold compute_instruqt_presets in h))

  -- Where each flavor is counted once: the preset of a Harvester node has 4 to 8 vCPUs. Where the
  -- budget has room for the guests of the other flavors at their presets and for 4 vCPUs a Harvester
  -- node, all guests at their presets together stay within seven tenths of a host of two CPUs or more.
  pub compute_instruqt_presets-fits :
      (cpus : ℕ) (flavor_counts : Dict ℕ) (p : Preset)
      → IsSeventy seventy
      → 2 ≤ cpus
      → is_unique flavor_of flavor_counts ≡ true
      → taken (compute_instruqt_presets seventy (pos cpus) flavor_counts) (others flavor_counts)
          + 4 * get flavor_counts "harvester" 0
        ≤ budget_or_default seventy (pos cpus)
      → Dict.lookup "harvester" (compute_instruqt_presets seventy (pos cpus) flavor_counts) ≡ some p
      → (4 ≤ p.vcpu)
        × (p.vcpu ≤ 8)
        × (taken (compute_instruqt_presets seventy (pos cpus) flavor_counts) flavor_counts * 10
            ≤ cpus * 7)
  compute_instruqt_presets-fits cpus flavor_counts p s two once room h =
      let made = compute_instruqt_presets seventy (pos cpus) flavor_counts in
      let budget = budget_or_default seventy (pos cpus) in
      let r = reserved (pos cpus) flavor_counts in
      let n = harvesters (pos cpus) flavor_counts in
      let e = preset_lem (pos cpus) flavor_counts p h in
      let b = budget_within s cpus two in
      let same = reserved-taken seventy cpus flavor_counts in
      let nodes = get-positive "harvester" flavor_counts once in
      let f = harvester_vcpu-fits budget r n (omega (arith, same, nodes, room)) in
      let (low, high) = harvester_vcpu-bounds budget r n in
      let one : vcpus_of made "harvester" ≡ harvester_vcpu budget r n = rw (h, vcpus_of) e in
      let all : taken made flavor_counts ≡ r + harvester_vcpu budget r n * n =
        taken-others made flavor_counts once ∙ rw (one, sym nodes, sym same) refl in
      rw (e, all) (low, high, omega (arith, f, b))

module _ (str : Option ℕ → String) (flavor : String) (preset : Preset) (block : Block) where
  lookup-set_field :
      (field f : String) (desired : ℕ) (b : Block)
      → Dict.lookup f (set_field str flavor field desired b).0
        ≡ (if f == field then some desired else Dict.lookup f b)
  lookup-set_field field f desired b = elim (Bool-cases (Dict.lookup field b == some desired)) [
    | inl e ↦
        let same = ==→≡ (Dict.lookup field b) (some desired) e in
        unfold set_field in rw e (ground (arith, same))
    | inr e ↦ unfold set_field in rw e (lookup-insert f field desired b)
  ]

  set_field-same :
      (field : String) (desired : ℕ) (b : Block)
      → Dict.lookup field b ≡ some desired
      → set_field str flavor field desired b ≡ (b, [])
  set_field-same field desired b h =
      let e = ap (λ o. o == some desired) h ∙ ==_refl (some desired) in
      unfold set_field in rw e refl

  set_block-same :
      (b : Block)
      → Dict.lookup "memory_mib" b ≡ some preset.memory_mib
      → Dict.lookup "vcpu" b ≡ some preset.vcpu
      → set_block str flavor preset b ≡ (b, [])
  unfolding set_block
  set_block-same b m v =
      rw (set_field-same "memory_mib" preset.memory_mib b m, set_field-same "vcpu" preset.vcpu b v)
        refl

  lookup-set_block :
      (f : String)
      → Dict.lookup f (set_block str flavor preset block).0 ≡ (
          if f == "vcpu"
          then some preset.vcpu
          else if f == "memory_mib"
          then some preset.memory_mib
          else Dict.lookup f block)
  unfolding set_block
  lookup-set_block f =
      lookup-set_field "vcpu" f preset.vcpu
        (set_field str flavor "memory_mib" preset.memory_mib block).0
      ∙ ap (λ (o : Option ℕ). if f == "vcpu" then some preset.vcpu else o)
          (lookup-set_field "memory_mib" f preset.memory_mib block)

  -- A block that a preset was written to has the preset's memory and vCPUs and its other fields as
  -- before, such as the size of the disk; and writing the preset again changes and notes nothing.
  pub set_block-once :
      let after = (set_block str flavor preset block).0 in
      ((f : String)
        → Dict.lookup f after ≡ (
            if f == "vcpu"
            then some preset.vcpu
            else if f == "memory_mib"
            then some preset.memory_mib
            else Dict.lookup f block))
      × (set_block str flavor preset after ≡ (after, []))
  set_block-once =
      let after = (set_block str flavor preset block).0 in
      let memory : Dict.lookup "memory_mib" after ≡ some preset.memory_mib =
        lookup-set_block "memory_mib" ∙ (unfold string_eq in refl) in
      let vcpu : Dict.lookup "vcpu" after ≡ some preset.vcpu =
        lookup-set_block "vcpu" ∙ (unfold string_eq in refl) in
      (lookup-set_block, set_block-same after memory vcpu)
