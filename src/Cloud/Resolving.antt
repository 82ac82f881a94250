-- ===== src/Cloud/Resolving.antt =====
-- What `resolve_instance_type` of rodeo/providers/instance_catalog.py answers, and for which
-- questions it has an answer.
use rodeo_cli.Base.{
  ◌≡◌, refl, sym, ◌∙◌, String, Bool, true, Option, none, some, [], ◌∷◌, ok, err, inl, inr,
  Bool-cases, Option-cases, ◌==◌, ==→≡, string_eq, nat_eq, ok-injective, err-ne-ok, contains, arith,
}
use rodeo_cli.Base.Lists.{all}
use rodeo_cli.Base.Dict
use rodeo_cli.Base.Dict.{Dict}
use rodeo_cli.Portal.Python.{Python}
use rodeo_cli.Portal.Text.{is_empty, strip}
use rodeo_cli.Cloud.Table.{InstanceOffer, aws_profile_tiers}
use rodeo_cli.Cloud.Catalog.{
  tiers, canonical_profile, has_tier, default_catalog, catalog_for_profile, normalize_tier, pick,
  offer_for, explicit_type, no_tier, resolve_tier, resolve_instance_type,
}

-- What the catalog relies on of `str.lower`: the names of the tiers are in lower case.
pub record HasLower (py : Python) : Type 0 where
  pub budget : py.lower "budget" ≡ "budget"
  pub recommended : py.lower "recommended" ≡ "recommended"
  pub performance : py.lower "performance" ≡ "performance"

all-lookup :
    {V : Type 0} (p : V → Bool) (d : Dict V) (k : String) (v : V)
    → all (λ (e : String × V). p e.1) d ≡ true
    → Dict.lookup k d ≡ some v
    → p v ≡ true
unfolding Dict.lookup
all-lookup p [] k v h e = cc
all-lookup p ((j, w) ∷ d) k v h e = ground (arith, all-lookup p d k v)

-- Each profile of the table offers the recommended tier.
table-recommended :
    all (λ (e : String × Dict InstanceOffer). has_tier e.1 "recommended") aws_profile_tiers ≡ true
unfolding aws_profile_tiers has_tier string_eq
table-recommended = refl

default-recommended : has_tier default_catalog "recommended" ≡ true
unfolding default_catalog aws_profile_tiers has_tier string_eq Dict.lookup
default-recommended = refl

pub catalog-recommended :
    (profile : String) → has_tier (catalog_for_profile profile) "recommended" ≡ true
unfolding catalog_for_profile
catalog-recommended profile =
    elim (Option-cases (Dict.lookup (canonical_profile profile) aws_profile_tiers)) [
      | inl e ↦ rw (catalog_for_profile, e) default-recommended
      | inr (c, e) ↦
          rw (catalog_for_profile, e)
            (all-lookup (λ d. has_tier d "recommended") aws_profile_tiers
              (canonical_profile profile) c table-recommended e)
    ]

module _ (py : Python) (lower : HasLower py) where
  -- A name of a tier is its own normal form.
  normalize_tier_idem : (t : String) → contains tiers t ≡ true → normalize_tier py (some t) ≡ ok t
  normalize_tier_idem t h = elim (Bool-cases (t == "budget")) [
    | inl b ↦
        rw (==→≡ t "budget" b)
          (unfold normalize_tier tiers is_empty strip string_eq nat_eq in rw lower.budget refl)
    | inr b ↦ elim (Bool-cases (t == "recommended")) [
      | inl r ↦
          rw (==→≡ t "recommended" r) (
            unfold normalize_tier tiers is_empty strip string_eq nat_eq in
            rw lower.recommended refl)
      | inr r ↦
          let p = ==→≡ t "performance" (unfold tiers in ground (arith, h)) in
          rw p (
            unfold normalize_tier tiers is_empty strip string_eq nat_eq in
            rw lower.performance refl)
    ]
  ]

  normalize_tier-tiers :
      (raw : Option String) (t : String) → normalize_tier py raw ≡ ok t → contains tiers t ≡ true
  unfolding normalize_tier
  normalize_tier-tiers none t h = rw (sym (ok-injective h)) (unfold tiers string_eq in refl)
  normalize_tier-tiers (some raw) t h = elim (Bool-cases (is_empty (strip raw))) [
    | inl b ↦
        let e : ok "recommended" ≡ ok t = unfold normalize_tier in rw b at h in
        rw (sym (ok-injective e)) (unfold tiers string_eq in refl)
    | inr b ↦ elim (Bool-cases (contains tiers (py.lower (strip raw)))) [
      | inl c ↦
          let e : ok (py.lower (strip raw)) ≡ ok t = unfold normalize_tier in rw (b, c) at h in
          rw (sym (ok-injective e)) c
      | inr c ↦ absurd (err-ne-ok (unfold normalize_tier in rw (b, c) at h))
    ]
  ]

  -- Without an explicit type, the answer is the offer of the profile's catalog for the tier that is
  -- asked for, and the refusal that names the profile's tiers if there is none.
  pub resolve_instance_type-lookup :
      (profile : String) (instance_type instance_tier : Option String) (t : String)
      → is_empty (explicit_type instance_type) ≡ true
      → normalize_tier py instance_tier ≡ ok t
      → resolve_instance_type py profile instance_type instance_tier
        ≡ (elim (Dict.lookup t (catalog_for_profile profile)) [
          | none ↦ err (no_tier py profile t)
          | some o ↦ ok (o.instance_type, some t)
        ])
  resolve_instance_type-lookup profile it tier t blank asked =
      let again = normalize_tier_idem t (normalize_tier-tiers tier t asked) in
      elim (Option-cases (Dict.lookup t (catalog_for_profile profile))) [
        | inl e ↦
            unfold resolve_instance_type resolve_tier offer_for pick in
            rw (blank, resolve_tier, asked, offer_for, again, pick, e) refl
        | inr (o, e) ↦
            unfold resolve_instance_type resolve_tier offer_for pick in
            rw (blank, resolve_tier, asked, offer_for, again, pick, e) refl
      ]

  -- Every profile, known or not, has an answer for the recommended tier, which is the one that is
  -- taken when none is asked for.
  pub resolve_instance_type-recommended :
      (profile : String) (instance_type instance_tier : Option String)
      → is_empty (explicit_type instance_type) ≡ true
      → normalize_tier py instance_tier ≡ ok "recommended"
      → (o : InstanceOffer) × (Dict.lookup "recommended" (catalog_for_profile profile) ≡ some o)
        × (resolve_instance_type py profile instance_type instance_tier
            ≡ ok (o.instance_type, some "recommended"))
  resolve_instance_type-recommended profile it tier blank asked =
      let h = catalog-recommended profile in
      elim (Option-cases (Dict.lookup "recommended" (catalog_for_profile profile))) [
        | inl e ↦ absurd (unfold has_tier in ground (arith, h, e))
        | inr (o, e) ↦ (
          o,
          e,
          resolve_instance_type-lookup profile it tier "recommended" blank asked ∙ rw e refl,
        )
      ]
