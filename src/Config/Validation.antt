-- ===== src/Config/Validation.antt =====
-- validate_config of rodeo/config.py: what a configuration must be before a deployment. The known
-- targets, the checks of the AWS provider and of the content block, and whether the machine is on
-- EC2 are parameters. Addresses are texts.
use rodeo_cli.Base.{
  ℤ, pos, String, ◌<>◌, Bool, true, false, not, ◌&&◌, ◌||◌, Option, none, some, List, [], ◌∷◌,
  Outcome, ok, err, ◌==◌, nat_eq, string_eq, contains, ltb_ℤ, if◌then◌else◌, ◌>>=◌, refuse,
}
use rodeo_cli.Base.Lists.{any, keep}
use rodeo_cli.Base.Dict.{Dict, keys}
use rodeo_cli.Portal.Python.{Python}
use rodeo_cli.Portal.Text.{is_empty, strip}
use rodeo_cli.Portal.Instructor.{join_comma}
use rodeo_cli.Config.Value.{
  Value, Fields, as_dict, as_int, is_null, is_true, get, get_or, str_of, repr_of, text_or,
}
use rodeo_cli.Config.Substring.{starts_with, is_in}
use rodeo_cli.Config.Merge.{ConfigError}
use rodeo_cli.Fleet.Loading.{is_nil}

abbrev config_error : String → ConfigError
config_error = ConfigError.config_error

-- What Python raises where a value is no mapping and is used as one.
unfoldable pub use_as : {A : Type 0} → Option A → Outcome ConfigError A
use_as none = err ConfigError.other_error
use_as (some a) = ok a

-- `x.get(k, {})`
unfoldable pub block : String → Dict Value → Outcome ConfigError (Dict Value)
unfolding use_as
block k cfg = use_as (as_dict (get_or k (Value.dict Fields.no_fields) cfg))

unfoldable pub libvirt_block : Dict Value → Outcome ConfigError (Dict Value)
libvirt_block cfg = elim (as_dict (get_or "libvirt" (Value.dict Fields.no_fields) cfg)) [
  | none ↦ err (config_error "libvirt must be a mapping")
  | some d ↦ ok d
]

unfoldable pub is_unresolved : Value → Bool
is_unresolved (Value.text s) = starts_with "??" s
is_unresolved _ = false

unfoldable pub is_blank : Value → Bool
is_blank Value.null = true
is_blank (Value.text s) = is_empty (strip s) || s == "CHANGE_ME"
is_blank _ = false

unfoldable pub keys_where : (Value → Bool) → Dict Value → List String
keys_where p d = keys (keep (λ f. p f.1) d)

abbrev pub disk_caches : List String
disk_caches = "none" ∷ "writethrough" ∷ "writeback" ∷ "unsafe" ∷ "directsync" ∷ []

abbrev pub disk_ios : List String
disk_ios = "native" ∷ "threads" ∷ "io_uring" ∷ []

-- v is None or v in the list
unfoldable pub is_allowed : List String → Value → Bool
is_allowed l Value.null = true
is_allowed l (Value.text s) = contains l s
is_allowed l _ = false

-- v == s
unfoldable pub is_text : String → Value → Bool
is_text s (Value.text t) = t == s
is_text s _ = false

-- Not an email to register with. The code also asks whether it ends in @example.com.
unfoldable pub is_bad_email : String → Bool
is_bad_email s = is_empty s || starts_with "??" s || is_in "example.com" s

-- An int above 0; a Bool is one.
unfoldable pub is_positive : Option ℤ → Bool
is_positive none = false
is_positive (some i) = ltb_ℤ (pos 0) i

-- Whether two addresses are one. Addresses are texts.
unfoldable pub is_same : Value → Value → Bool
is_same (Value.text s) (Value.text t) = s == t
is_same _ _ = false

-- The VMs that have an address, with it.
unfoldable pub node_ip : String → Option (Dict Value) → Dict Value → Dict Value
node_ip name none d = d
node_ip name (some spec) d = if is_true (get "ip" spec) then (name, get "ip" spec) ∷ d else d

unfoldable pub node_ips : Dict Value → Dict Value
unfolding node_ip
node_ips [] = []
node_ips ((name, v) ∷ vms) = node_ip name (as_dict v) (node_ips vms)

unfoldable pub owner_of : Value → Dict Value → String
owner_of vip [] = ""
owner_of vip ((name, ip) ∷ d) = if is_same ip vip then name else owner_of vip d

module _ (py : Python) where
  unfoldable pub check_credentials : Dict Value → Outcome {0, 0} ConfigError Unit
  check_credentials creds = do
    let unresolved = keys_where is_unresolved creds
    _ ← refuse (not (is_nil unresolved)) (
        config_error (
          "Secrets not resolved: "
          <> (join_comma unresolved
              <> "\nFor ??key: edit ~/.rodeo/secrets.yaml or run: rodeo init\nFor ??env:/??file:/??cmd:: the source returned nothing — check the variable, file, or command.")))
    let empty = keys_where is_blank creds
    refuse (not (is_nil empty)) (
        config_error (
          "Credentials are empty: "
          <> (join_comma empty
              <> "\nAn empty password would be baked into the VM install config.\nSet values in rodeo-plan.yaml (??key) and ~/.rodeo/secrets.yaml, or run: rodeo init")))

  unfoldable pub check_libvirt : Dict Value → Outcome {0, 0} ConfigError Unit
  check_libvirt libvirt = do
    _ ← refuse (not (is_allowed disk_caches (get "disk_cache" libvirt))) (
        config_error (
          "Invalid libvirt.disk_cache '"
          <> (str_of py (get "disk_cache" libvirt)
              <> ("' — use one of: " <> (join_comma disk_caches <> ".")))))
    refuse (not (is_allowed disk_ios (get "disk_io" libvirt))) (
        config_error (
          "Invalid libvirt.disk_io '"
          <> (str_of py (get "disk_io" libvirt)
              <> ("' — use one of: " <> (join_comma disk_ios <> ".")))))

  -- An email that is no text, and is not empty, has no startswith.
  unfoldable pub email_text : Value → Outcome ConfigError String
  email_text (Value.text s) = ok s
  email_text v = if is_true v then err ConfigError.other_error else ok ""

  unfoldable pub check_tls : Dict Value → Outcome {0, 0} ConfigError Unit
  check_tls tls =
      if is_text "letsEncrypt" (get "source" tls)
      then (do
        email ← email_text (get_or "email" (Value.text "") tls)
        refuse (is_bad_email email) (
            config_error (
              "rancher_tls.email must be a real address for Let's Encrypt registration (got "
              <> (repr_of py (get_or "email" (Value.text "") tls)
                  <> ").\nSet it in rodeo-plan.yaml under rancher_tls.email, or add rancher_letsencrypt_email: <your address> to ~/.rodeo/secrets.yaml if using the ??key form."))))
      else ok tt

  unfoldable pub is_amount : Value → Bool
  is_amount v = is_null v || is_positive (as_int v)

  unfoldable pub check_amount : String → String → Dict Value → Outcome {0, 0} ConfigError Unit
  check_amount flavor field spec = refuse (not (is_amount (get field spec))) (
      config_error (
        "resources."
        <> (flavor
            <> ("."
                <> (field
                    <> (" must be a positive integer, got " <> repr_of py (get field spec)))))))

  unfoldable pub check_flavor : String → Option (Dict Value) → Outcome {0, 0} ConfigError Unit
  check_flavor flavor none = err (config_error ("resources." <> (flavor <> " must be a mapping")))
  check_flavor flavor (some spec) = do
    _ ← check_amount flavor "memory_mib" spec
    _ ← check_amount flavor "vcpu" spec
    check_amount flavor "disk_gb" spec

  unfoldable pub check_resources : Dict Value → Outcome {0, 0} ConfigError Unit
  check_resources [] = ok tt
  check_resources ((flavor, v) ∷ d) = do _ ← check_flavor flavor (as_dict v); check_resources d

  -- The VIP is no VM's address, and the Rancher address is that of its VM.
  unfoldable pub check_network : Dict Value → Dict Value → Outcome {0, 0} ConfigError Unit
  check_network net vms = do
    let ips = node_ips vms
    let vip = get "vip" net
    _ ← refuse (is_true vip && any (λ f. is_same f.1 vip) ips) (
        config_error (
          "network.vip ("
          <> (str_of py vip
              <> (") collides with the IP of VM '"
                  <> (owner_of vip ips
                      <> "'.\nThe VIP must be a free address — kube-vip floats it between nodes.")))))
    let rancher_ip = get "rancher_ip" net
    let vm_rancher_ip = get "rancher" ips
    refuse (is_true rancher_ip && is_true vm_rancher_ip && not (is_same rancher_ip vm_rancher_ip)) (
        config_error (
          "network.rancher_ip ("
          <> (str_of py rancher_ip
              <> (") does not match vms.rancher.ip ("
                  <> (str_of py vm_rancher_ip <> ") — update both together.")))))

  -- The `provider:` block that a machine which is not on EC2 needs; `validate` is the provider's.
  unfoldable pub validate_aws_provider :
      Bool
      → (Dict Value → Outcome {0, 0} ConfigError Unit)
      → Dict Value
      → Outcome {0, 0} ConfigError Unit
  validate_aws_provider on_ec2 validate cfg =
      if on_ec2 then ok tt else (elim (as_dict (get "provider" cfg)) [
        | none ↦ err (
            config_error
              "deployment_target: aws requires a provider: block (same shape as workshop.yaml — type, region, ami or Leap filter, …).")
        | some provider ↦ do
          let ptype = py.lower (strip (text_or py "" (get "type" provider)))
          _ ← refuse (not (ptype == "aws")) (
              config_error (
                "deployment_target: aws requires provider.type: aws (got "
                <> (py.repr ptype <> ")")))
          validate provider
      ])

  module _ (known : List String)
      (check_aws check_content : Dict Value → Outcome {0, 0} ConfigError Unit) where
    unfoldable pub check_target : Dict Value → Outcome {0, 0} ConfigError Unit
    check_target cfg = do
      let target = str_of py (get_or "deployment_target" (Value.text "baremetal") cfg)
      _ ← refuse (not (contains known target)) (
          config_error (
            "Invalid deployment_target '"
            <> (target <> ("' — use one of: " <> (join_comma known <> ".")))))
      if target == "aws" then check_aws cfg else ok tt

    unfoldable pub validate_config : Dict Value → Outcome {0, 0} ConfigError Unit
    validate_config cfg = do
      creds ← block "credentials" cfg
      _ ← check_credentials creds
      _ ← check_target cfg
      _ ← if is_true (get "content" cfg) then check_content cfg else ok tt
      libvirt ← libvirt_block cfg
      _ ← check_libvirt libvirt
      tls ← block "rancher_tls" cfg
      _ ← check_tls tls
      resources ← block "resources" cfg
      _ ← check_resources resources
      net ← block "network" cfg
      vms ← block "vms" cfg
      check_network net vms
