-- ===== src/Base/Errors.antt =====
-- A value, or a raised exception of type E.
use mathlib.Core.Path.{◌≡◌, refl, sym}
use mathlib.Core.Logic.{◌≢◌, ◌⊎◌, inl, inr}
use mathlib.Core.Bool.{Bool, true, false}
use rodeo_cli.Base.Equality.{if◌then◌else◌}

pub data Outcome {ℓ κ} (E : Type ℓ) (A : Type κ) : Type (ℓ ⊔ κ) where
  ok : A → Outcome E A
  err : E → Outcome E A

pub ok-injective {ℓ κ} :
    {E : Type ℓ} {A : Type κ} {a b : A} → ◌≡◌ {A = Outcome E A} (ok a) (ok b) → a ≡ b
ok-injective h = cc

pub err-ne-ok {ℓ κ} :
    {E : Type ℓ} {A : Type κ} {e : E} {a : A} → ◌≢◌ {A = Outcome E A} (err e) (ok a)
err-ne-ok h = cc

pub Outcome-cases {ℓ κ} :
    {E : Type ℓ} {A : Type κ} (r : Outcome E A) → ((a : A) × (r ≡ ok a)) ⊎ ((e : E) × (r ≡ err e))
Outcome-cases (ok a) = inl (a, refl)
Outcome-cases (err e) = inr (e, refl)

pub err-injective {ℓ κ} :
    {E : Type ℓ} {A : Type κ} {e d : E} → ◌≡◌ {A = Outcome E A} (err e) (err d) → e ≡ d
err-injective h = cc

infixl 10 ◌>>=◌
unfoldable pub ◌>>=◌ {ℓ κ μ} :
    {E : Type ℓ} {A : Type κ} {B : Type μ} → Outcome E A → (A → Outcome E B) → Outcome E B
(ok a) >>= f = f a
(err e) >>= f = err e

-- `if b: raise e`
unfoldable pub refuse {ℓ} : {E : Type ℓ} → Bool → E → Outcome {ℓ, 0} E Unit
refuse b e = if b then err e else ok tt

-- What a chain that returns has passed.
pub bind-ok {ℓ κ μ} :
    {E : Type ℓ} {A : Type κ} {B : Type μ} (r : Outcome E A) (f : A → Outcome E B) (b : B)
    → (r >>= f) ≡ ok b
    → (a : A) × (r ≡ ok a) × (f a ≡ ok b)
unfolding ◌>>=◌
bind-ok (ok a) f b h = (a, refl, h)
bind-ok (err e) f b h = absurd (err-ne-ok h)

pub refuse-ok {ℓ κ} :
    {E : Type ℓ} {B : Type κ} (c : Bool) (e : E) (f : Unit → Outcome E B) (b : B)
    → (refuse c e >>= f) ≡ ok b
    → (c ≡ false) × (f tt ≡ ok b)
unfolding ◌>>=◌ refuse
refuse-ok true e f b h = absurd (err-ne-ok h)
refuse-ok false e f b h = (refl, h)

-- What holds of the value that a chain ends with holds of the result.
pub ok-carries {ℓ κ μ} :
    {E : Type ℓ} {A : Type κ} (P : A → Type μ) {a b : A}
    → ◌≡◌ {A = Outcome E A} (ok a) (ok b)
    → P a
    → P b
ok-carries P {a} {b} h p = let e : a ≡ b = ok-injective h in rw (sym e) p

pub refuse-false {ℓ} : {E : Type ℓ} (c : Bool) (e : E) {u : Unit} → refuse c e ≡ ok u → c ≡ false
unfolding refuse
refuse-false true e h = absurd (err-ne-ok h)
refuse-false false e h = refl

-- P holds of the result, if there is one: a chain is taken apart from its front.
module _ {ℓ κ μ} {E : Type ℓ} {B : Type κ} (P : B → Type μ) where
  pub data Ensures (r : Outcome E B) : Type (ℓ ⊔ κ ⊔ μ) where
    ensured : ((b : B) → r ≡ ok b → P b) → Ensures r

  pub Ensures_elim : (r : Outcome E B) → Ensures r → (b : B) → r ≡ ok b → P b
  Ensures_elim r (ensured w) b h = w b h

  pub Ensures-ok : {b : B} → P b → Ensures (ok b)
  Ensures-ok p = ensured (λ c h. ok-carries P h p)

  pub Ensures-bind {ν} :
      {A : Type ν} {r : Outcome E A} {f : A → Outcome E B}
      → ((a : A) → r ≡ ok a → Ensures (f a))
      → Ensures (r >>= f)
  Ensures-bind {r = r} {f = f} w =
      ensured (λ b h. let (a, p, q) = bind-ok r f b h in Ensures_elim (f a) (w a p) b q)

  pub Ensures-refuse :
      (c : Bool) (e : E) (f : Unit → Outcome E B)
      → (c ≡ false → Ensures (f tt))
      → Ensures (refuse c e >>= f)
  Ensures-refuse c e f w =
      ensured (λ b h. let (p, q) = refuse-ok c e f b h in Ensures_elim (f tt) (w p) b q)

  pub Ensures-err : (e : E) → Ensures (err e)
  Ensures-err e = ensured (λ b h. absurd (err-ne-ok h))

  pub Ensures-if :
      (c : Bool) {r s : Outcome E B} → Ensures r → Ensures s → Ensures (if c then r else s)
  Ensures-if true p q = p
  Ensures-if false p q = q

-- A step that returns is passed.
pub bind-of-ok {ℓ κ μ} :
    {E : Type ℓ} {A : Type κ} {B : Type μ} (r : Outcome E A) (f : A → Outcome E B) (a : A)
    → r ≡ ok a
    → (r >>= f) ≡ f a
unfolding ◌>>=◌
bind-of-ok r f a h = rw (h) refl

pub refuse-of-false {ℓ κ} :
    {E : Type ℓ} {B : Type κ} (c : Bool) (e : E) (f : Unit → Outcome E B)
    → c ≡ false
    → (refuse c e >>= f) ≡ f tt
unfolding ◌>>=◌ refuse
refuse-of-false c e f h = rw (h) refl
