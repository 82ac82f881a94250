-- ===== src/Config/Validated.antt =====
-- What validate_config of rodeo/config.py promises of a configuration that it lets through.
use rodeo_cli.Base.{
  ◌≡◌, refl, String, Bool, true, false, not, ◌&&◌, Option, none, some, List, [], ◌∷◌, Outcome, ok,
  string_eq, contains, arith, bind-ok, refuse-ok, refuse-false, Ensures_elim, Ensures-bind,
  Ensures-refuse, ensured, err-ne-ok,
}
use rodeo_cli.Base.Lists.{any, all}
use rodeo_cli.Base.Dict.{Dict, keys}
use rodeo_cli.Portal.Python.{Python}
use rodeo_cli.Config.Value.{Value, as_dict, is_true, get, get_or, str_of}
use rodeo_cli.Config.Merge.{ConfigError}
use rodeo_cli.Fleet.Loading.{is_nil}
use rodeo_cli.Config.Validation.{
  block, is_unresolved, is_blank, keys_where, disk_caches, disk_ios, is_allowed, is_amount, is_same,
  node_ips, check_credentials, check_libvirt, check_amount, check_flavor, check_resources,
  check_network, check_target, validate_config, libvirt_block,
}

-- A credential that is there, and no placeholder.
abbrev pub is_set : Value → Bool
is_set v = not (is_unresolved v) && not (is_blank v)

module _ (py : Python) where
  -- A flavor whose amounts are positive ints where they are given.
  abbrev pub is_sized : Option (Dict Value) → Bool
  is_sized none = false
  is_sized (some spec) =
      is_amount py (get "memory_mib" spec)
      && is_amount py (get "vcpu" spec)
      && is_amount py (get "disk_gb" spec)

  -- A configuration to deploy from.
  pub record IsDeployable (known : List String) (cfg : Dict Value) : Type 0 where
    pub creds : Dict Value
    pub credentials : (block "credentials" cfg ≡ ok creds) × (all (λ f. is_set f.1) creds ≡ true)
    pub target :
        contains known (str_of py (get_or "deployment_target" (Value.text "baremetal") cfg)) ≡ true
    pub libvirt : Dict Value
    pub disks :
        (libvirt_block cfg ≡ ok libvirt)
        × (is_allowed disk_caches (get "disk_cache" libvirt) ≡ true)
        × (is_allowed disk_ios (get "disk_io" libvirt) ≡ true)
    pub resources : Dict Value
    pub sizes :
        (block "resources" cfg ≡ ok resources)
        × (all (λ f. is_sized (as_dict f.1)) resources ≡ true)
    pub net : Dict Value
    pub vms : Dict Value
    pub network : (block "network" cfg ≡ ok net) × (block "vms" cfg ≡ ok vms)
    pub vip :
        (is_true (get "vip" net) && any (λ f. is_same f.1 (get "vip" net)) (node_ips vms)) ≡ false
    pub rancher :
        (is_true (get "rancher_ip" net)
          && is_true (get "rancher" (node_ips vms))
          && not (is_same (get "rancher_ip" net) (get "rancher" (node_ips vms))))
        ≡ false

  all-keys_where :
      (p : Value → Bool) (d : Dict Value) → is_nil (keys_where p d) ≡ all (λ f. not (p f.1)) d
  unfolding keys_where is_nil keys
  all-keys_where p [] = refl
  all-keys_where p ((k, v) ∷ d) = ground (arith, all-keys_where p d)

  all-both :
      (p q : Value → Bool) (d : Dict Value)
      → all (λ f. p f.1) d ≡ true
      → all (λ f. q f.1) d ≡ true
      → all (λ f. p f.1 && q f.1) d ≡ true
  all-both p q [] h g = refl
  all-both p q ((k, v) ∷ d) h g = ground (arith, all-both p q d)

  check_credentials-set :
      (creds : Dict Value) (u : Unit)
      → check_credentials py creds ≡ ok u
      → all (λ f. is_set f.1) creds ≡ true
  unfolding check_credentials
  check_credentials-set creds u h =
      let (a, e) = refuse-ok _ _ _ u h in
      let b = refuse-false _ _ e in
      all-both (λ v. not (is_unresolved v)) (λ v. not (is_blank v)) creds
        (ground (arith, a, all-keys_where is_unresolved creds))
        (ground (arith, b, all-keys_where is_blank creds))

  check_libvirt-allowed :
      (libvirt : Dict Value) (u : Unit)
      → check_libvirt py libvirt ≡ ok u
      → (is_allowed disk_caches (get "disk_cache" libvirt) ≡ true)
        × (is_allowed disk_ios (get "disk_io" libvirt) ≡ true)
  unfolding check_libvirt
  check_libvirt-allowed libvirt u h =
      let (a, e) = refuse-ok _ _ _ u h in
      let b = refuse-false _ _ e in (ground (arith, a), ground (arith, b))

  check_amount-ok :
      (flavor field : String) (spec : Dict Value) (u : Unit)
      → check_amount py flavor field spec ≡ ok u
      → is_amount py (get field spec) ≡ true
  unfolding check_amount
  check_amount-ok flavor field spec u h = let a = refuse-false _ _ h in ground (arith, a)

  check_flavor-sized :
      (flavor : String) (o : Option (Dict Value)) (u : Unit)
      → check_flavor py flavor o ≡ ok u
      → is_sized o ≡ true
  unfolding check_flavor
  check_flavor-sized flavor none u h = absurd (err-ne-ok h)
  check_flavor-sized flavor (some spec) u h =
      let (_, a, e1) = bind-ok _ _ u h in
      let (_, b, e2) = bind-ok _ _ u e1 in
      ground (
        arith,
        check_amount-ok flavor "memory_mib" spec _ a,
        check_amount-ok flavor "vcpu" spec _ b,
        check_amount-ok flavor "disk_gb" spec u e2,
      )

  check_resources-sized :
      (d : Dict Value) (u : Unit)
      → check_resources py d ≡ ok u
      → all (λ f. is_sized (as_dict f.1)) d ≡ true
  unfolding check_resources
  check_resources-sized [] u h = refl
  check_resources-sized ((flavor, v) ∷ d) u h =
      let (_, a, e) = bind-ok _ _ u h in
      ground (arith, check_flavor-sized flavor (as_dict v) _ a, check_resources-sized d u e)

  check_target-known :
      (known : List String) (aws content : Dict Value → Outcome {0, 0} ConfigError Unit)
      (cfg : Dict Value) (u : Unit)
      → check_target py known aws content cfg ≡ ok u
      → contains known (str_of py (get_or "deployment_target" (Value.text "baremetal") cfg)) ≡ true
  unfolding check_target
  check_target-known known aws content cfg u h =
      let (a, _) = refuse-ok _ _ _ u h in ground (arith, a)

-- What validate_config lets through can be deployed from: the credentials are there and resolved,
-- the target is known, the disk options are allowed, each amount of resources is a positive int,
-- the VIP is no VM's address, and the Rancher address is that of the Rancher VM.
pub validate_config-IsDeployable :
    (py : Python) (known : List String) (aws content : Dict Value → Outcome {0, 0} ConfigError Unit)
    (cfg : Dict Value) (u : Unit)
    → validate_config py known aws content cfg ≡ ok u
    → IsDeployable py known cfg
unfolding validate_config check_network
validate_config-IsDeployable py known aws content cfg u h =
    let P = λ (x : Unit). IsDeployable py known cfg in
    Ensures_elim P (validate_config py known aws content cfg)
      (Ensures-bind P (λ creds c. Ensures-bind P (λ _ set. Ensures-bind P (λ _ target.
        Ensures-bind P (λ _ _. Ensures-bind P (λ libvirt l. Ensures-bind P (λ _ disks.
          Ensures-bind P (λ tls _. Ensures-bind P (λ _ _. Ensures-bind P (λ resources r.
            Ensures-bind P (λ _ sized. Ensures-bind P (λ net n. Ensures-bind P (λ vms v.
              Ensures-refuse P _ _ _ (λ vip. ensured (λ u last. record {
                creds = creds;
                credentials = (c, check_credentials-set py creds _ set);
                target = check_target-known py known aws content cfg _ target;
                libvirt = libvirt;
                disks =
                    let (caches, ios) = check_libvirt-allowed py libvirt _ disks in
                    (l, caches, ios);
                resources = resources;
                sizes = (r, check_resources-sized py resources _ sized);
                net = net;
                vms = vms;
                network = (n, v);
                vip = vip;
                rancher = refuse-false _ _ last;
              })))))))))))))))
      u h
