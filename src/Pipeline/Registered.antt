-- ===== src/Pipeline/Registered.antt =====
-- Looking up what was registered (rodeo/profiles/__init__.py, rodeo/providers/registry.py).
use rodeo_cli.Base.{
  ◌≡◌, refl, ◌∙◌, ap, String, Bool, false, some, ok, ◌==◌, ==_refl, string_eq, arith,
}
use rodeo_cli.Base.Dict
use rodeo_cli.Base.Dict.{Dict, lookup-insert}
use rodeo_cli.Portal.Python.{Python}
use rodeo_cli.Pipeline.Profile.{Profile}
use rodeo_cli.Pipeline.Registry.{
  register_profile, get_profile, provider_key, register_provider, get_provider,
}

register_profile-insert :
    (profile : Profile) (replace : Bool) (reg after : Dict Profile)
    → register_profile profile replace reg ≡ ok after
    → after ≡ Dict.insert profile.name profile reg
unfolding register_profile
register_profile-insert profile replace reg after h = ground (arith, h)

get_profile-found :
    (load : Dict Profile → Dict Profile) (k : String) (reg : Dict Profile) (p : Profile)
    → Dict.lookup k reg ≡ some p
    → get_profile load k reg ≡ (ok p, reg)
get_profile-found load k reg p h = unfold get_profile in rw (get_profile, h) refl

-- A profile that was registered is found under its name, without a look for plugins, and under any
-- other name the registry finds what it found before.
pub register_profile-get_profile :
    (load : Dict Profile → Dict Profile) (profile : Profile) (replace : Bool)
    (reg after : Dict Profile)
    → register_profile profile replace reg ≡ ok after
    → (get_profile load profile.name after ≡ (ok profile, after))
      × ((k : String) → (k == profile.name) ≡ false → Dict.lookup k after ≡ Dict.lookup k reg)
register_profile-get_profile load profile replace reg after h =
    let e = register_profile-insert profile replace reg after h in
    let at = λ (k : String). ap (Dict.lookup k) e ∙ lookup-insert k profile.name profile reg in
    (
      get_profile-found load profile.name after profile
          (at profile.name ∙ ground (arith, ==_refl profile.name)),
      λ k n. at k ∙ ground (arith, n),
    )

module _ (py : Python) {P : Type 0} where
  register_provider-insert :
      (name : String) (factory : P) (replace : Bool) (reg after : Dict P)
      → register_provider py name factory replace reg ≡ ok after
      → after ≡ Dict.insert (provider_key py name) factory reg
  unfolding register_provider
  register_provider-insert name factory replace reg after h = ground (arith, h)

  -- A provider that was registered is found under every spelling of its name that has the same
  -- lower-case form, also if that name is one that is only planned.
  pub register_provider-get_provider :
      (expected : Dict P → String) (load : Dict P → Dict P) (name again : String) (factory : P)
      (replace : Bool) (reg after : Dict P)
      → register_provider py name factory replace reg ≡ ok after
      → provider_key py again ≡ provider_key py name
      → get_provider py expected load again after ≡ (ok factory, after)
  register_provider-get_provider expected load name again factory replace reg after h same =
      let key = provider_key py name in
      let e = register_provider-insert name factory replace reg after h in
      let found : Dict.lookup key after ≡ some factory =
        ap (Dict.lookup key) e ∙ lookup-insert key key factory reg ∙ ground (arith, ==_refl key) in
      unfold get_provider in rw (get_provider, same, found) refl
