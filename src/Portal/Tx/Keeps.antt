-- ===== src/Portal/Tx/Keeps.antt =====
-- Rules for actions: what they preserve, and when an error undoes all that was written.
use rodeo_cli.Base.{◌≡◌, refl, ◌∙◌, Bool, true, false, if◌then◌else◌, Outcome, ok, err}
use rodeo_cli.Portal.Db.{Db, Error}
use rodeo_cli.Portal.Tx.{
  Connection, Tx, pure, raise, lift, select, execute, written, modify, commit, continue, ◌>>=◌,
  finish, write_tx,
}

-- `m` keeps P of the tables and of what a ROLLBACK returns to, whether it returns or raises.
pub record Keeps {A : Type 0} (P : Db → Type 0) (m : Tx A) : Type 0 where
  pub at : (c : Connection) → P c.db → P c.saved → P (m c).1.db × P (m c).1.saved

Keeps-finish :
    {A : Type 0} (Q : Db → Type 0) (r : Outcome Error A) (c : Connection)
    → Q c.db
    → Q c.saved
    → Q (finish r c).1.db × Q (finish r c).1.saved
Keeps-finish Q (ok a) c h k = (h, h)
Keeps-finish Q (err e) c h k = (k, k)

Keeps-written :
    (Q : Db → Type 0) (r : Outcome Error Db) (c : Connection)
    → ((db : Db) → r ≡ ok db → Q db)
    → Q c.db
    → Q c.saved
    → Q (written r c).1.db × Q (written r c).1.saved
unfolding written
Keeps-written Q (ok db) c w h k = (w db refl, k)
Keeps-written Q (err e) c w h k = (h, k)

Keeps-continue :
    {A B : Type 0} (Q : Db → Type 0) (r : Outcome Error A) (f : A → Tx B) (c : Connection)
    → ((a : A) → Keeps Q (f a))
    → Q c.db
    → Q c.saved
    → Q (continue r f c).1.db × Q (continue r f c).1.saved
Keeps-continue Q (ok a) f c kf h k = (kf a).at c h k
Keeps-continue Q (err e) f c kf h k = (h, k)

module _ {A : Type 0} {P : Db → Type 0} where
  pub Keeps-pure : (a : A) → Keeps P (pure a)
  unfolding pure
  Keeps-pure a = record { at = λ c h k. (h, k) }

  pub Keeps-raise : (e : Error) → Keeps P (raise {A = A} e)
  unfolding raise
  Keeps-raise e = record { at = λ c h k. (h, k) }

  pub Keeps-lift : (r : Outcome Error A) → Keeps P (lift r)
  unfolding lift
  Keeps-lift r = record { at = λ c h k. (h, k) }

  pub Keeps-select : (f : Db → A) → Keeps P (select f)
  unfolding select
  Keeps-select f = record { at = λ c h k. (h, k) }

  pub Keeps-if : (b : Bool) (m n : Tx A) → Keeps P m → Keeps P n → Keeps P (if b then m else n)
  Keeps-if true m n km kn = km
  Keeps-if false m n km kn = kn

  pub Keeps-write_tx : (m : Tx A) → Keeps P m → Keeps P (write_tx m)
  unfolding write_tx
  Keeps-write_tx m km = record {
    at = λ c h _.
        let (r, c') = m (record c { saved = c.db }) in
        let (h', k') = km.at (record c { saved = c.db }) h h in Keeps-finish P r c' h' k';
  }

module _ {P : Db → Type 0} where
  pub Keeps-execute :
      (f : Db → Outcome Error Db)
      → ((db db' : Db) → P db → f db ≡ ok db' → P db')
      → Keeps P (execute f)
  unfolding execute
  Keeps-execute f w = record {
    at = λ c h k. Keeps-written P (f c.db) c (λ db e. w c.db db h e) h k;
  }

  pub Keeps-modify : (f : Db → Db) → ((db : Db) → P db → P (f db)) → Keeps P (modify f)
  unfolding modify
  Keeps-modify f w = record { at = λ c h k. (w c.db h, k) }

  pub Keeps-commit : Keeps P commit
  unfolding commit
  Keeps-commit = record { at = λ c h k. (h, h) }

module _ {A B : Type 0} {P : Db → Type 0} where
  pub Keeps-bind :
      (m : Tx A) (f : A → Tx B) → Keeps P m → ((a : A) → Keeps P (f a)) → Keeps P (m >>= f)
  unfolding ◌>>=◌
  Keeps-bind m f km kf = record {
    at = λ c h k.
        let (r, c') = m c in let (h', k') = km.at c h k in Keeps-continue P r f c' kf h' k';
  }

pub ruleset keeps_rules = (
  Keeps-pure, Keeps-raise, Keeps-lift, Keeps-select, Keeps-if, Keeps-write_tx, Keeps-commit,
  Keeps-bind,
)

-- `m` leaves alone what a ROLLBACK returns to.
pub record KeepsSaved {A : Type 0} (m : Tx A) : Type 0 where
  pub at : (c : Connection) → (m c).1.saved ≡ c.saved

module _ {A : Type 0} where
  pub KeepsSaved-pure : (a : A) → KeepsSaved (pure a)
  unfolding pure
  KeepsSaved-pure a = record { at = λ c. refl }

  pub KeepsSaved-raise : (e : Error) → KeepsSaved (raise {A = A} e)
  unfolding raise
  KeepsSaved-raise e = record { at = λ c. refl }

  pub KeepsSaved-lift : (r : Outcome Error A) → KeepsSaved (lift r)
  unfolding lift
  KeepsSaved-lift r = record { at = λ c. refl }

  pub KeepsSaved-select : (f : Db → A) → KeepsSaved (select f)
  unfolding select
  KeepsSaved-select f = record { at = λ c. refl }

  pub KeepsSaved-if :
      (b : Bool) (m n : Tx A) → KeepsSaved m → KeepsSaved n → KeepsSaved (if b then m else n)
  KeepsSaved-if true m n km kn = km
  KeepsSaved-if false m n km kn = kn

KeepsSaved-written : (r : Outcome Error Db) (c : Connection) → (written r c).1.saved ≡ c.saved
unfolding written
KeepsSaved-written (ok db) c = refl
KeepsSaved-written (err e) c = refl

pub KeepsSaved-execute : (f : Db → Outcome Error Db) → KeepsSaved (execute f)
unfolding execute
KeepsSaved-execute f = record { at = λ c. KeepsSaved-written (f c.db) c }

pub KeepsSaved-modify : (f : Db → Db) → KeepsSaved (modify f)
unfolding modify
KeepsSaved-modify f = record { at = λ c. refl }

module _ {A B : Type 0} where
  KeepsSaved-continue :
      (r : Outcome Error A) (f : A → Tx B) (c : Connection)
      → ((a : A) → KeepsSaved (f a))
      → (continue r f c).1.saved ≡ c.saved
  KeepsSaved-continue (ok a) f c kf = (kf a).at c
  KeepsSaved-continue (err e) f c kf = refl

  pub KeepsSaved-bind :
      (m : Tx A) (f : A → Tx B) → KeepsSaved m → ((a : A) → KeepsSaved (f a)) → KeepsSaved (m >>= f)
  unfolding ◌>>=◌
  KeepsSaved-bind m f km kf = record {
    at = λ c. let (r, c') = m c in KeepsSaved-continue r f c' kf ∙ km.at c;
  }

pub ruleset saved_rules = (
  KeepsSaved-pure, KeepsSaved-raise, KeepsSaved-lift, KeepsSaved-select, KeepsSaved-if,
  KeepsSaved-execute, KeepsSaved-modify, KeepsSaved-bind,
)

module _ {A : Type 0} where
  finish-err :
      (r : Outcome Error A) (c : Connection) (e : Error)
      → (finish r c).0 ≡ err e
      → (finish r c).1.db ≡ c.saved
  finish-err (ok a) c e h = cc
  finish-err (err _) c e h = refl

  -- A transaction that raises leaves the tables as it found them.
  pub write_tx-rollback :
      (m : Tx A) (c : Connection) (e : Error)
      → KeepsSaved m
      → (write_tx m c).0 ≡ err e
      → (write_tx m c).1.db ≡ c.db
  unfolding write_tx
  write_tx-rollback m c e km h =
      let (r, c') = m (record c { saved = c.db }) in
      finish-err r c' e h ∙ km.at (record c { saved = c.db })
