-- ===== src/Portal/PinRules.antt =====
-- Which PINs `pin_problem` of rodeo/portal/claims.py accepts.
use Prim.Native.Char.{Char}
use mathlib.Core.Bool.{false≢true}
use rodeo_cli.Base.{
  ◌≡◌, ◌≢◌, refl, sym, ap, ◌∙◌, ℕ, ◌+◌, ◌%◌, ◌≤◌, ◌<◌, String, true, false, none, some, List, [],
  ◌∷◌, inl, inr, ◌==◌, ==_refl, nat_eq, string_eq, Option-cases, arith,
}
use rodeo_cli.Base.Lists.{length, all}
use rodeo_cli.Portal.Python.{Python}
use rodeo_cli.Portal.Text.{codes}
use rodeo_cli.Portal.Pin.{
  distinct, steps, is_simple, is_repeated, decimals, six_digits, pin_problem,
}

-- Each digit follows the one before it by a step of s, where 9 is followed by 0.
abbrev pub IsRun : ℕ → List ℕ → Type 0
IsRun s [] = Unit
IsRun s (a ∷ []) = Unit
IsRun s (a ∷ b ∷ ds) = (b ≡ (a + s) % 10) × IsRun s (b ∷ ds)

abbrev pub AreDigits : List ℕ → Type 0
AreDigits [] = Unit
AreDigits (d ∷ ds) = (d < 10) × AreDigits ds

steps-run1 : (ds : List ℕ) → AreDigits ds → IsRun 1 ds → all (λ s. s == 1) (steps ds) ≡ true
unfolding steps
steps-run1 [] d r = refl
steps-run1 (a ∷ []) d r = refl
steps-run1 (a ∷ b ∷ ds) (d, e) (p, r) = ground (arith, steps-run1 (b ∷ ds) e r)

steps-run9 : (ds : List ℕ) → AreDigits ds → IsRun 9 ds → all (λ s. s == 9) (steps ds) ≡ true
unfolding steps
steps-run9 [] d r = refl
steps-run9 (a ∷ []) d r = refl
steps-run9 (a ∷ b ∷ ds) (d, e) (p, r) = ground (arith, steps-run9 (b ∷ ds) e r)

repeated_halves : (a b c : ℕ) → is_repeated (a ∷ b ∷ c ∷ a ∷ b ∷ c ∷ []) ≡ true
unfolding is_repeated
repeated_halves a b c = simp ==_refl (ground arith)

repeated_pairs : (a b : ℕ) → is_repeated (a ∷ b ∷ a ∷ b ∷ a ∷ b ∷ []) ≡ true
unfolding is_repeated
repeated_pairs a b = ground (arith, ==_refl a, ==_refl b)

doubled : (a b c : ℕ) → is_repeated (a ∷ a ∷ b ∷ b ∷ c ∷ c ∷ []) ≡ true
unfolding is_repeated
doubled a b c = ground (arith, ==_refl a, ==_refl b, ==_refl c)

-- What the interpreter's decimal digits stand for.
pub record HasDecimals (py : Python) : Type 0 where
  pub below_ten : (c : Char) (d : ℕ) → py.decimal c ≡ some d → d < 10

module _ (py : Python) (values : HasDecimals py) where
  decimals-AreDigits : (s : String) (ds : List ℕ) → decimals py s ≡ some ds → AreDigits ds
  unfolding decimals
  decimals-AreDigits String.[] [] h = tt
  decimals-AreDigits String.[] (d ∷ ds) h = cc
  decimals-AreDigits (String.◌∷◌ c s) ds h = elim (Option-cases (py.decimal c)) [
    | inl p ↦ absurd (ground (arith, p))
    | inr (d, p) ↦ elim (Option-cases (decimals py s)) [
      | inl q ↦ absurd (ground (arith, p, q))
      | inr (r, q) ↦
          let e : ds ≡ d ∷ r = ground (arith, p, q) in
          rw e (values.below_ten c d p, decimals-AreDigits s r q)
    ]
  ]

  six_digits-some :
      (pin : String) (ds : List ℕ)
      → six_digits py pin ≡ some ds
      → (decimals py pin ≡ some ds) × (length ds ≡ 6)
  unfolding six_digits
  six_digits-some pin ds h = elim (Option-cases (decimals py pin)) [
    | inl p ↦ absurd (ground (arith, p))
    | inr (es, p) ↦ (ground (arith, p), ground (arith, p))
  ]

  accepted :
      (pin : String) (ds : List ℕ)
      → six_digits py pin ≡ some ds
      → pin_problem py pin ≡ none
      → (is_simple pin ds ≡ false) × (is_repeated (codes pin) ≡ false)
  unfolding pin_problem
  accepted pin ds p h = ground (arith, p)

  -- What an accepted PIN is: six decimal digits, in at least three different characters, that do
  -- not run up or down by one, and are neither a half twice, nor a pair three times, nor three
  -- digits each twice.
  pub record IsHard (pin : String) : Type 0 where
    pub digits : List ℕ
    pub are_digits : decimals py pin ≡ some digits
    pub six : length digits ≡ 6
    pub varied : 3 ≤ distinct (codes pin)
    pub not_up : ¬ IsRun 1 digits
    pub not_down : ¬ IsRun 9 digits
    pub not_halves : (a b c : ℕ) → codes pin ≢ a ∷ b ∷ c ∷ a ∷ b ∷ c ∷ []
    pub not_pairs : (a b : ℕ) → codes pin ≢ a ∷ b ∷ a ∷ b ∷ a ∷ b ∷ []
    pub not_doubled : (a b c : ℕ) → codes pin ≢ a ∷ a ∷ b ∷ b ∷ c ∷ c ∷ []

  -- A PIN without a problem is hard to guess in each of these ways, where every decimal digit has a
  -- value below ten.
  pub pin_problem-IsHard : (pin : String) → pin_problem py pin ≡ none → IsHard pin
  pin_problem-IsHard pin h = elim (Option-cases (six_digits py pin)) [
    | inl p ↦ absurd (unfold pin_problem in ground (arith, p))
    | inr (ds, p) ↦
        let (found, six) = six_digits-some pin ds p in
        let (simple, repeated) = accepted pin ds p h in
        let small = decimals-AreDigits pin ds found in
        record {
          digits = ds;
          are_digits = found;
          six = six;
          varied = unfold is_simple in ground arith;
          not_up = λ r. unfold is_simple in ground (arith, steps-run1 ds small r);
          not_down = λ r. unfold is_simple in ground (arith, steps-run9 ds small r);
          not_halves =
              λ a b c e. false≢true (sym repeated ∙ ap is_repeated e ∙ repeated_halves a b c);
          not_pairs = λ a b e. false≢true (sym repeated ∙ ap is_repeated e ∙ repeated_pairs a b);
          not_doubled = λ a b c e. false≢true (sym repeated ∙ ap is_repeated e ∙ doubled a b c);
        }
  ]
