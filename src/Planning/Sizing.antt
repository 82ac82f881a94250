-- ===== src/Planning/Sizing.antt =====
-- Resource presets for Instruqt (rodeo/sizing.py). The product with 0.70 is one of floats; its
-- integer part, `int(host_cpus * 0.70)`, is a parameter.
use Prim.Native.Nat.{max, min}
use rodeo_cli.Base.{
  ℕ, zero, suc, ◌+◌, ◌-◌, ◌*◌, ◌/◌, ℤ, pos, negsuc, String, ◌<>◌, Bool, Option, none, some, List,
  [], ◌∷◌, ◌++◌, ◌==◌, string_eq, nat_eq, option_eq, ltb, if◌then◌else◌,
}
use rodeo_cli.Base.Lists.{keep}
use rodeo_cli.Base.Dict
use rodeo_cli.Base.Dict.{Dict}

unfoldable pub instruqt_vcpu_cap : Dict ℕ
instruqt_vcpu_cap =
    ("harvester", 8)
    ∷ ("rancher", 4)
    ∷ ("eib", 4)
    ∷ ("edge-node", 2)
    ∷ ("k3s-node", 2)
    ∷ ("rke2-node", 2)
    ∷ []

unfoldable pub instruqt_memory_mib : Dict ℕ
instruqt_memory_mib =
    ("harvester", 20480)
    ∷ ("rancher", 8192)
    ∷ ("eib", 12288)
    ∷ ("edge-node", 4096)
    ∷ ("k3s-node", 2048)
    ∷ ("rke2-node", 4096)
    ∷ []

-- d.get(k, default)
unfoldable pub get : Dict ℕ → String → ℕ → ℕ
unfolding Dict.lookup
get d k default = elim (Dict.lookup k d) [ none ↦ default | some n ↦ n ]

pub record Preset : Type 0 where
  pub memory_mib : ℕ
  pub vcpu : ℕ

-- The nodes of a flavor that is counted.
abbrev pub positive : String × ℕ → Bool
positive (flavor, n) = ltb 0 n

module _ (seventy : ℕ → ℕ) where
  unfoldable pub instruqt_vcpu_budget : ℤ → ℕ
  instruqt_vcpu_budget (negsuc n) = 0
  instruqt_vcpu_budget (pos zero) = 0
  instruqt_vcpu_budget (pos (suc n)) = max 1 (seventy (suc n))

  -- `instruqt_vcpu_budget(host_cpus) or 22`
  unfoldable pub budget_or_default : ℤ → ℕ
  budget_or_default host_cpus =
      let budget = instruqt_vcpu_budget host_cpus in if budget == 0 then 22 else budget

unfoldable pub preset_for : String → Preset
unfolding get instruqt_vcpu_cap instruqt_memory_mib
preset_for flavor = record {
  memory_mib = get instruqt_memory_mib flavor 4096;
  vcpu = get instruqt_vcpu_cap flavor 2;
}

-- The loop over the other flavors: their presets and the vCPUs that they take.
unfoldable pub other_presets : Dict ℕ → Dict Preset × ℕ → Dict Preset × ℕ
unfolding Dict.insert
other_presets [] out = out
other_presets ((flavor, n) ∷ counts) (presets, reserved) =
    if flavor == "harvester"
    then other_presets counts (presets, reserved)
    else other_presets counts
        (Dict.insert flavor (preset_for flavor) presets, reserved + (preset_for flavor).vcpu * n)

-- One Harvester node's share of what is left, between the floor 4 and the cap 8 of that flavor.
unfoldable pub harvester_vcpu : ℕ → ℕ → ℕ → ℕ
harvester_vcpu budget reserved n =
    let per = (budget - reserved) / n in max 4 (min 8 (if ltb 0 per then per else 4))

unfoldable pub with_harvester : ℕ → ℕ → Dict Preset × ℕ → Dict Preset
unfolding Dict.insert harvester_vcpu
with_harvester budget zero (presets, reserved) = presets
with_harvester budget (suc n) (presets, reserved) =
    Dict.insert "harvester"
      (record { memory_mib = 20480; vcpu = harvester_vcpu budget reserved (suc n) }) presets

module _ (seventy : ℕ → ℕ) where
  unfoldable pub compute_instruqt_presets : ℤ → Dict ℕ → Dict Preset
  compute_instruqt_presets host_cpus flavor_counts =
      let counts = keep positive flavor_counts in
      with_harvester (budget_or_default seventy host_cpus) (get counts "harvester" 0)
        (other_presets counts ([], 0))

-- A block of `resources`: its fields with numbers.
abbrev pub Block : Type 0
Block = Dict ℕ

module _ (str : Option ℕ → String) where
  -- One field of a block, and the note if it changes.
  unfoldable pub set_field : String → String → ℕ → Block → Block × List String
  unfolding option_eq nat_eq
  set_field flavor field desired block =
      if Dict.lookup field block == some desired then (block, []) else (
        Dict.insert field desired block,
        ("resources."
              <> (flavor
                  <> ("."
                      <> (field
                          <> (": "
                              <> (str (Dict.lookup field block)
                                  <> (" → " <> str (some desired))))))))
            ∷ [],
      )

  unfoldable pub set_block : String → Preset → Block → Block × List String
  set_block flavor preset block =
      let (block', notes) = set_field flavor "memory_mib" preset.memory_mib block in
      let (block'', notes') = set_field flavor "vcpu" preset.vcpu block' in
      (block'', notes ++ notes')

  -- The flavor's block, if the plan declares one that is a dict.
  unfoldable pub set_flavor :
      String
      → Preset
      → Option (Option Block)
      → Dict (Option Block)
      → Dict (Option Block) × List String
  set_flavor flavor preset none resources = (resources, [])
  set_flavor flavor preset (some none) resources = (resources, [])
  set_flavor flavor preset (some (some block)) resources =
      let (block', notes) = set_block flavor preset block in
      (Dict.insert flavor (some block') resources, notes)

  unfoldable pub set_flavors : Dict Preset → Dict (Option Block) → Dict (Option Block) × List String
  set_flavors [] resources = (resources, [])
  set_flavors ((flavor, preset) ∷ presets) resources =
      let (next, notes) = set_flavor flavor preset (Dict.lookup flavor resources) resources in
      let (last, more) = set_flavors presets next in (last, notes ++ more)

  module _ (seventy : ℕ → ℕ) where
    -- The plan's `resources`, or none if that is no dict.
    unfoldable pub apply_instruqt_resource_presets :
        Option (Dict (Option Block)) → ℤ → Dict ℕ → Option (Dict (Option Block)) × List String
    apply_instruqt_resource_presets none host_cpus flavor_counts = (none, [])
    apply_instruqt_resource_presets (some resources) host_cpus flavor_counts =
        let (after, notes) =
          set_flavors (compute_instruqt_presets seventy host_cpus flavor_counts) resources in
        (some after, notes)
