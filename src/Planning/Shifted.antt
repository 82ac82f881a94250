-- ===== src/Planning/Shifted.antt =====
-- How one address, MAC or port is moved for an instance (rodeo/instances.py).
use rodeo_cli.Base.{
  ◌≡◌, refl, sym, ℕ, zero, suc, ◌+◌, ◌*◌, ◌==◌, ℤ, pos, ◌≤◌, String, ◌<>◌, Bool, true, false,
  Option, none, some, List, [], ◌∷◌, map, Outcome, ok, err, ok-injective, err-ne-ok, ◌⊎◌, inl, inr,
  Bool-cases, Option-cases, ltb, ltb_ℤ, nat_eq, arith,
}
use rodeo_cli.Portal.Python.{Python}
use rodeo_cli.Portal.Text.{is_empty}
use rodeo_cli.Planning.Instances.{
  ShiftError, split_on, join, add_nat, ints, shift_octets, set_third, Network, shift_key, shift_ip,
  shift_cidr, shift_mac, set_key, shift_port,
}

abbrev pub has_six : List String → Bool
has_six (a ∷ b ∷ c ∷ d ∷ e ∷ f ∷ []) = true
has_six _ = false

-- What a key has afterwards: as before, where it is missing or empty, and else a text that is moved.
abbrev pub IsKey : (String → String → Type 0) → Option String → Option String → Type 0
IsKey P none r = r ≡ none
IsKey P (some s) r = ((is_empty s ≡ true) × (r ≡ some s)) ⊎ ((t : String) × (r ≡ some t) × P s t)

-- Each port that is there and not 0 is moved by n strides.
abbrev pub AreStrided : ℕ → ℕ → List (Option ℕ) → List (Option ℕ) → Type 0
AreStrided n stride [] [] = Unit
AreStrided n stride (none ∷ ps) (q ∷ qs) = (q ≡ none) × AreStrided n stride ps qs
AreStrided n stride (some zero ∷ ps) (q ∷ qs) = (q ≡ some 0) × AreStrided n stride ps qs
AreStrided n stride (some (suc p) ∷ ps) (q ∷ qs) =
    (q ≡ some (suc p + n * stride)) × AreStrided n stride ps qs
AreStrided n stride _ _ = ⊥

pub suc-ne-zero : (n : ℕ) → (suc n == 0) ≡ false
suc-ne-zero n = ground arith

pub map-AreStrided :
    (n stride : ℕ) (ps : List (Option ℕ)) → AreStrided n stride ps (map (shift_port n stride) ps)
unfolding shift_port
map-AreStrided n stride [] = tt
map-AreStrided n stride (none ∷ ps) = (refl, map-AreStrided n stride ps)
map-AreStrided n stride (some zero ∷ ps) = (ground arith, map-AreStrided n stride ps)
map-AreStrided n stride (some (suc p) ∷ ps) = (rw (suc-ne-zero p) refl, map-AreStrided n stride ps)

module _ (py : Python) (net : Network py) (n : ℕ) where
  -- Four integers between dots; the third is moved by n and is 255 at most.
  abbrev pub IsIp : String → String → Type 0
  IsIp s t =
      (a : ℤ) × (b : ℤ) × (c : ℤ) × (d : ℤ) × (ints py (split_on 46 s) ≡ some (a ∷ b ∷ c ∷ d ∷ []))
      × (ltb_ℤ (pos 255) (add_nat c n) ≡ false)
      × (t
          ≡ py.str a <> ("." <> (py.str b <> ("." <> (py.str (add_nat c n) <> ("." <> py.str d))))))

  -- A network of /24 or smaller, whose address is moved.
  abbrev pub IsCidr : String → String → Type 0
  IsCidr s t =
      (address : String) × (size : ℕ) × (ip : String) × (net.ip_network s ≡ some (address, size))
      × (24 ≤ size)
      × IsIp address ip
      × (t ≡ ip <> ("/" <> py.str (pos size)))

  -- Six parts between colons, of which the third is the number; other texts stay.
  abbrev pub IsMac : String → String → Type 0
  IsMac s t =
      ((a : String) × (b : String) × (c : String) × (d : String) × (e : String) × (f : String)
        × (split_on 58 s ≡ a ∷ b ∷ c ∷ d ∷ e ∷ f ∷ [])
        × (t ≡ join ":" (a ∷ b ∷ net.hex2 n ∷ d ∷ e ∷ f ∷ [])))
      ⊎ ((has_six (split_on 58 s) ≡ false) × (t ≡ s))

  shift_octets-IsIp :
      (s t : String) (l : List ℤ)
      → ints py (split_on 46 s) ≡ some l
      → shift_octets py s n l ≡ ok t
      → IsIp s t
  unfolding shift_octets join
  shift_octets-IsIp s t (a ∷ b ∷ c ∷ d ∷ []) p h =
      elim (Bool-cases (ltb_ℤ (pos 255) (add_nat c n))) [
        | inl e ↦ absurd (err-ne-ok (rw e at h))
        | inr e ↦ (a, b, c, d, p, e, sym (ok-injective (rw e at h)))
      ]
  shift_octets-IsIp s t [] p h = absurd (err-ne-ok h)
  shift_octets-IsIp s t (a ∷ []) p h = absurd (err-ne-ok h)
  shift_octets-IsIp s t (a ∷ b ∷ []) p h = absurd (err-ne-ok h)
  shift_octets-IsIp s t (a ∷ b ∷ c ∷ []) p h = absurd (err-ne-ok h)
  shift_octets-IsIp s t (a ∷ b ∷ c ∷ d ∷ e ∷ l) p h = absurd (err-ne-ok h)

  pub shift_ip-IsIp : (s t : String) → shift_ip py s n ≡ ok t → IsIp s t
  unfolding shift_ip
  shift_ip-IsIp s t h = elim (Option-cases (ints py (split_on 46 s))) [
    | inl e ↦ absurd (err-ne-ok (rw (e, shift_ip) at h))
    | inr (l, e) ↦ shift_octets-IsIp s t l e (rw (e, shift_ip) at h)
  ]

  IsCidr-ok :
      (s t address : String) (size : ℕ) (o : Outcome ShiftError String)
      → net.ip_network s ≡ some (address, size)
      → 24 ≤ size
      → shift_ip py address n ≡ o
      → (elim o as (λ x. Outcome ShiftError String) [
        | err e ↦ err e
        | ok ip ↦ ok (ip <> ("/" <> py.str (pos size)))
      ])
        ≡ ok t
      → IsCidr s t
  IsCidr-ok s t address size (err e) p low q h = absurd (err-ne-ok h)
  IsCidr-ok s t address size (ok ip) p low q h =
      (address, size, ip, p, low, shift_ip-IsIp address ip q, sym (ok-injective h))

  pub shift_cidr-IsCidr : (s t : String) → shift_cidr py net s n ≡ ok t → IsCidr s t
  unfolding shift_cidr
  shift_cidr-IsCidr s t h = elim (Option-cases (net.ip_network s)) [
    | inl e ↦ absurd (err-ne-ok (rw (e, shift_cidr) at h))
    | inr ((address, size), e) ↦ elim (Bool-cases (ltb size 24)) [
      | inl big ↦ absurd (err-ne-ok (rw (e, big, shift_cidr) at h))
      | inr fits ↦
          IsCidr-ok s t address size (shift_ip py address n) e (ground (arith, fits)) refl
            (rw (e, fits, shift_cidr) at h)
    ]
  ]

  set_third-IsMac :
      (s : String) (l : List String) → split_on 58 s ≡ l → IsMac s (set_third py net s n l)
  unfolding set_third join
  set_third-IsMac s (a ∷ b ∷ c ∷ d ∷ e ∷ f ∷ []) p = inl (a, b, c, d, e, f, p, refl)
  set_third-IsMac s [] p = inr (rw p refl, refl)
  set_third-IsMac s (a ∷ []) p = inr (rw p refl, refl)
  set_third-IsMac s (a ∷ b ∷ []) p = inr (rw p refl, refl)
  set_third-IsMac s (a ∷ b ∷ c ∷ []) p = inr (rw p refl, refl)
  set_third-IsMac s (a ∷ b ∷ c ∷ d ∷ []) p = inr (rw p refl, refl)
  set_third-IsMac s (a ∷ b ∷ c ∷ d ∷ e ∷ []) p = inr (rw p refl, refl)
  set_third-IsMac s (a ∷ b ∷ c ∷ d ∷ e ∷ f ∷ g ∷ l) p = inr (rw p refl, refl)

  pub shift_mac-IsMac : (s : String) → IsMac s (shift_mac py net s n)
  unfolding shift_mac
  shift_mac-IsMac s = set_third-IsMac s (split_on 58 s) refl

  key_ok :
      (f : String → Outcome ShiftError String) (P : String → String → Type 0)
      → ((s t : String) → f s ≡ ok t → P s t)
      → (s : String) (r : Option String) (o : Outcome ShiftError String) → f s ≡ o
      → (elim o as (λ x. Outcome ShiftError (Option String)) [ err e ↦ err e | ok t ↦ ok (some t) ])
        ≡ ok r
      → (t : String) × (r ≡ some t) × P s t
  key_ok f P w s r (err e) p h = absurd (err-ne-ok h)
  key_ok f P w s r (ok t) p h = (t, sym (ok-injective h), w s t p)

  pub shift_key-IsKey :
      (f : String → Outcome ShiftError String) (P : String → String → Type 0)
      → ((s t : String) → f s ≡ ok t → P s t)
      → (o r : Option String) → shift_key f o ≡ ok r
      → IsKey P o r
  unfolding shift_key
  shift_key-IsKey f P w none r h = sym (ok-injective h)
  shift_key-IsKey f P w (some s) r h = elim (Bool-cases (is_empty s)) [
    | inl e ↦ inl (e, sym (ok-injective (rw e at h)))
    | inr e ↦ inr (key_ok f P w s r (f s) refl (rw e at h))
  ]

  pub set_key-IsKey :
      (f : String → String) (P : String → String → Type 0)
      → ((s : String) → P s (f s))
      → (o : Option String) → IsKey P o (set_key f o)
  unfolding set_key
  set_key-IsKey f P w none = refl
  set_key-IsKey f P w (some s) = elim (Bool-cases (is_empty s)) [
    | inl e ↦ inl (e, rw e refl)
    | inr e ↦ inr (f s, rw e refl, w s)
  ]

  abbrev pub AreMacs : List (Option String) → List (Option String) → Type 0
  AreMacs [] [] = Unit
  AreMacs (a ∷ xs) (b ∷ ys) = IsKey IsMac a b × AreMacs xs ys
  AreMacs _ _ = ⊥

  pub map-AreMacs :
      (l : List (Option String)) → AreMacs l (map (set_key (λ s. shift_mac py net s n)) l)
  map-AreMacs [] = tt
  map-AreMacs (a ∷ l) = (set_key-IsKey _ IsMac shift_mac-IsMac a, map-AreMacs l)
