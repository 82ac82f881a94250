-- ===== src/Pipeline/Vars.antt =====
-- `_write_vars_file` of rodeo/engine/runner.py: what it refuses to deploy. The values that it writes
-- for Ansible, the inventory that it loads for them and the file are the engine's.
use rodeo_cli.Base.{
  String, ◌<>◌, Bool, true, false, not, ◌&&◌, ◌||◌, Option, none, some, [], ◌∷◌, Outcome, err,
  contains, string_eq, if◌then◌else◌,
}
use rodeo_cli.Base.Lists.{any}
use rodeo_cli.Base.Dict
use rodeo_cli.Base.Dict.{Dict}
use rodeo_cli.Portal.Text.{is_empty}
use rodeo_cli.Config.Substring.{starts_with}
use rodeo_cli.Pipeline.Engine.{Engine, Plan}

unfoldable pub iso_checksums : Dict String
iso_checksums =
    (
      "1.8.2",
      "sha512:3f53f3a38b6496b86e8f23912999bb32ac7d93caba5b1245598390145dae369fd1dd54fff0fbc8839b13ebae8be295695bbf33356920a979b684ea75e5d18625",
    )
    ∷ (
      "1.8.1",
      "sha512:b1950e7d0543b813711e1b5006eafe1bb042cc3625449180a987a21d31bc70de9111df270b7911fafbfbd53a86b834f7f8f3fbfcd2ad81ee86fa2d9f1bd8a5a0",
    )
    ∷ (
      "1.8.0",
      "sha512:dcbe2b2ba47e1f15854eb054f0cf5a5efe711db7aa86c4a4e50410e0f12aa5481085f99b85e62e89ddb53b95b61dc859b8568152f986be7d4168fd6b8ead026a",
    )
    ∷ []

-- The plan names the Harvester nodes, or they are the VMs that harvester_vm_names finds.
unfoldable pub needs_harvester : Plan → Bool
needs_harvester plan = elim plan.harvester_node_names [
  | some names ↦ any (contains plan.vms) names
  | none ↦ elim plan.harvester_vms [ [] ↦ false | n ∷ ns ↦ true ]
]

unfoldable pub needs_rancher_vm : Plan → Bool
needs_rancher_vm plan = contains plan.vms "rancher" || contains plan.vms "eib"

unfoldable pub rancher_password : Plan → String
rancher_password plan =
    if is_empty plan.rancher_vm_password
    then plan.harvester_os_password
    else plan.rancher_vm_password

unfoldable pub checksum : Plan → String
checksum plan =
    if not (is_empty plan.harvester_iso_checksum)
    then plan.harvester_iso_checksum
    else (elim (Dict.lookup plan.harvester_version iso_checksums) [ none ↦ "" | some s ↦ s ])

-- The refusal, if there is one.
unfoldable pub vars_refusal : Plan → Option String
vars_refusal plan =
    if needs_harvester plan && is_empty plan.harvester_os_password
    then some
        "credentials.harvester_os_password is missing or empty — refusing to deploy with an undefined Harvester OS console password. Set '??harvester_os_password' in rodeo-plan.yaml (resolved from ~/.rodeo/secrets.yaml — run 'rodeo init' to generate one)."
    else if needs_rancher_vm plan && is_empty (rancher_password plan)
    then some
        "credentials.rancher_vm_password is missing or empty — refusing to deploy with an undefined Rancher/EIB VM console password. Set '??rancher_vm_password' (or '??harvester_os_password' as the shared fallback) in rodeo-plan.yaml, or run 'rodeo init'."
    else if needs_harvester plan && is_empty plan.harvester_token
    then some
        "credentials.harvester_token is missing or empty — refusing to deploy without a cluster join token. Set '??harvester_token' in rodeo-plan.yaml, or run 'rodeo init'."
    else if needs_harvester plan && not (starts_with "sha512:" (checksum plan))
    then some (
        "No pinned sha512 checksum for Harvester "
        <> (plan.harvester_version
            <> ". Refusing to download the ISO unverified. Pin the digest in rodeo/engine/runner.py or set versions.harvester_iso_checksum: sha512:<digest> in the plan."))
    else none

unfoldable pub write_vars_file :
    (engine : Engine) → Plan → engine.World → Outcome String engine.World
write_vars_file engine plan world = elim (vars_refusal plan) [
  | some m ↦ err m
  | none ↦ engine.write_vars world
]
