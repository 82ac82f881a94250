-- ===== src/Planning/Disjoint.antt =====
-- The addresses and ports of two instances of a lab on one host (rodeo/instances.py).
use Prim.Native.Char.{code}
use Prim.Native.String.append
use mathlib.Core.Option.{some-injective}
use native.Mathlib.Nat.{mul-le-mul_right}
use rodeo_cli.Base.{
  ◌≡◌, refl, sym, ◌∙◌, ap, ℕ, ◌+◌, ◌*◌, ◌<◌, ℤ, pos, negsuc, String, ◌<>◌, Bool, true, false, some,
  List, [], ◌∷◌, map, ok, ok-injective, err-ne-ok, inl, inr, Bool-cases, Option-cases, ◌==◌, nat_eq,
  ltb, ltb_ℤ, if◌then◌else◌, arith,
}
use rodeo_cli.Portal.Python.{Python}
use rodeo_cli.Planning.Instances.{split_on, join, add_nat, ints, shift_octets, shift_ip, shift_port}

-- The character is in none of the places.
unfoldable pub has_no : ℕ → String → Bool
has_no c String.[] = true
has_no c (String.◌∷◌ d s) = if code d == c then false else has_no c s

-- What is relied on of `str` of an integer: different integers have different texts, without a dot.
pub record IsPrinting (py : Python) : Type 0 where
  pub injective : (i j : ℤ) → py.str i ≡ py.str j → i ≡ j
  pub no_dot : (i : ℤ) → has_no 46 (py.str i) ≡ true

split_on-one : (s : String) → has_no 46 s ≡ true → split_on 46 s ≡ s ∷ []
unfolding split_on has_no nat_eq
split_on-one String.[] h = refl
split_on-one (String.◌∷◌ d s) h =
    let rest = split_on-one s (ground (arith, h)) in ground (arith, h, rest)

split_on-append :
    (s t : String) → has_no 46 s ≡ true → split_on 46 (s <> ("." <> t)) ≡ s ∷ split_on 46 t
unfolding split_on has_no nat_eq
split_on-append String.[] t h = rw (append.nil ("." <> t), append.cons "." "" t, append.nil t) refl
split_on-append (String.◌∷◌ d s) t h =
    let rest = split_on-append s t (ground (arith, h)) in rw append.cons (ground (arith, h, rest))

split_on-join :
    (a b c d : String)
    → has_no 46 a ≡ true
    → has_no 46 b ≡ true
    → has_no 46 c ≡ true
    → has_no 46 d ≡ true
    → split_on 46 (join "." (a ∷ b ∷ c ∷ d ∷ [])) ≡ a ∷ b ∷ c ∷ d ∷ []
unfolding join
split_on-join a b c d ha hb hc hd =
    split_on-append a _ ha
    ∙ ap (λ l. a ∷ l)
        (split_on-append b _ hb
          ∙ ap (λ l. b ∷ l) (split_on-append c _ hc ∙ ap (λ l. c ∷ l) (split_on-one d hd)))

add_nat-injective : (c : ℤ) (n m : ℕ) → add_nat c n ≡ add_nat c m → n ≡ m
unfolding add_nat
add_nat-injective (pos a) n m h = ground (arith, h)
add_nat-injective (negsuc a) n m h = ground (arith, h)

abbrev third : List String → String
third (a ∷ b ∷ c ∷ l) = c
third _ = ""

abbrev third_octet : List ℤ → ℤ
third_octet (a ∷ b ∷ c ∷ l) = c
third_octet _ = pos 0

module _ (py : Python) (printing : IsPrinting py) where
  join_octets :
      (a b c d : ℤ) → third (split_on 46 (join "." (map py.str (a ∷ b ∷ c ∷ d ∷ [])))) ≡ py.str c
  join_octets a b c d = ap third (
      split_on-join (py.str a) (py.str b) (py.str c) (py.str d) (printing.no_dot a)
        (printing.no_dot b) (printing.no_dot c) (printing.no_dot d))

  octets_shifted :
      (ip s : String) (n : ℕ) (octets : List ℤ)
      → shift_octets py ip n octets ≡ ok s
      → third (split_on 46 s) ≡ py.str (add_nat (third_octet octets) n)
  unfolding shift_octets
  octets_shifted ip s n (a ∷ b ∷ c ∷ d ∷ []) h = elim (Bool-cases (ltb_ℤ (pos 255) (add_nat c n))) [
    | inl e ↦ absurd (err-ne-ok (rw e at h))
    | inr e ↦
        let t : ok (join "." (map py.str (a ∷ b ∷ add_nat c n ∷ d ∷ []))) ≡ ok s = rw e at h in
        ap (λ x. third (split_on 46 x)) (sym (ok-injective t)) ∙ join_octets a b (add_nat c n) d
  ]
  octets_shifted ip s n [] h = absurd (err-ne-ok h)
  octets_shifted ip s n (a ∷ []) h = absurd (err-ne-ok h)
  octets_shifted ip s n (a ∷ b ∷ []) h = absurd (err-ne-ok h)
  octets_shifted ip s n (a ∷ b ∷ c ∷ []) h = absurd (err-ne-ok h)
  octets_shifted ip s n (a ∷ b ∷ c ∷ d ∷ e ∷ l) h = absurd (err-ne-ok h)

  third_shifted :
      (ip s : String) (n : ℕ)
      → shift_ip py ip n ≡ ok s
      → (octets : List ℤ) × (ints py (split_on 46 ip) ≡ some octets)
        × (third (split_on 46 s) ≡ py.str (add_nat (third_octet octets) n))
  unfolding shift_ip
  third_shifted ip s n h = elim (Option-cases (ints py (split_on 46 ip))) [
    | inl e ↦ absurd (err-ne-ok (rw (shift_ip, e) at h))
    | inr (octets, e) ↦ (octets, e, octets_shifted ip s n octets (rw (shift_ip, e) at h))
  ]

  -- An address that is moved for two instances comes out as one only if the instances are one; this
  -- is so where int and str are as Python's.
  pub shift_ip-disjoint :
      (ip s : String) (n m : ℕ) → shift_ip py ip n ≡ ok s → shift_ip py ip m ≡ ok s → n ≡ m
  shift_ip-disjoint ip s n m h k =
      let (os, e, p) = third_shifted ip s n h in
      let (os', e', q) = third_shifted ip s m k in
      let same = some-injective os os' (sym e ∙ e') in
      add_nat-injective (third_octet os) n m (
        printing.injective _ _
          (sym p ∙ q ∙ ap (λ o. py.str (add_nat (third_octet o) m)) (sym same)))

below_next : (p q n m s : ℕ) → p < s → n < m → p + n * s < q + m * s
below_next p q n m s l h = let k = mul-le-mul_right s h in omega (arith, k)

-- Two services whose ports are smaller than the stride come out on one host port only if they are
-- one service of one instance.
pub shift_port-disjoint :
    (p q n m stride : ℕ)
    → 0 < p
    → 0 < q
    → p < stride
    → q < stride
    → shift_port n stride (some p) ≡ shift_port m stride (some q)
    → (p ≡ q) × (n ≡ m)
unfolding shift_port nat_eq
shift_port-disjoint p q n m stride hp hq lp lq h =
    let e : p + n * stride ≡ q + m * stride = ground (arith, h) in
    elim (Bool-cases (ltb n m)) [
      | inl l ↦ let k = below_next p q n m stride lp (ground arith) in absurd (omega (arith, k, e))
      | inr l ↦ elim (Bool-cases (ltb m n)) [
        | inl r ↦
            let k = below_next q p m n stride lq (ground arith) in absurd (omega (arith, k, e))
        | inr r ↦
            let same : n ≡ m = ground arith in
            let f : p + m * stride ≡ q + m * stride = ap (λ i. p + i * stride) (sym same) ∙ e in
            (omega (arith, f), same)
      ]
    ]
