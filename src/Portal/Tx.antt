-- ===== src/Portal/Tx.antt =====
-- Transactions of rodeo/portal/claims.py: `write_tx` and the statements inside it, as actions on a
-- connection that may raise. What was written before a raise is still there when it is caught.
pub mod Keeps
use rodeo_cli.Base.{Outcome, ok, err}
use rodeo_cli.Portal.Db.{Db, Error}

-- A connection: the tables as its transaction sees them, and what a ROLLBACK returns to.
pub record Connection : Type 0 where
  pub db : Db
  pub saved : Db

abbrev pub Tx : Type 0 → Type 0
Tx A = Connection → Outcome Error A × Connection

module _ {A : Type 0} where
  unfoldable pub pure : A → Tx A
  pure a c = (ok a, c)

  unfoldable pub raise : Error → Tx A
  raise e c = (err e, c)

  unfoldable pub lift : Outcome Error A → Tx A
  lift r c = (r, c)

  -- A SELECT.
  unfoldable pub select : (Db → A) → Tx A
  select f c = (ok (f c.db), c)

unfoldable pub written : Outcome Error Db → Connection → Outcome Error (Unit {0}) × Connection
written (ok db) c = (ok tt, record c { db = db })
written (err e) c = (err e, c)

-- A statement that may break a constraint; it then writes nothing.
unfoldable pub execute : (Db → Outcome Error Db) → Tx (Unit {0})
unfolding written
execute f c = written (f c.db) c

unfoldable pub modify : (Db → Db) → Tx (Unit {0})
modify f c = (ok tt, record c { db = f c.db })

-- con.execute("COMMIT"); con.execute("BEGIN IMMEDIATE")
unfoldable pub commit : Tx (Unit {0})
commit c = (ok tt, record c { saved = c.db })

module _ {A B : Type 0} where
  abbrev pub continue : Outcome Error A → (A → Tx B) → Tx B
  continue (ok a) f c = f a c
  continue (err e) f c = (err e, c)

  infixl 10 ◌>>=◌ ◌>>◌
  -- Opening this opens the actions too.
  unfoldable pub ◌>>=◌ : Tx A → (A → Tx B) → Tx B
  unfolding pure raise lift select execute modify commit
  ◌>>=◌ m f c = let (r, c') = m c in continue r f c'

  abbrev pub ◌>>◌ : Tx A → Tx B → Tx B
  m >> n = m >>= λ _. n

module _ {A : Type 0} where
  abbrev pub finish : Outcome Error A → Connection → Outcome Error A × Connection
  finish (ok a) c = (ok a, record c { saved = c.db })
  finish (err e) c = (err e, record c { db = c.saved })

  -- BEGIN IMMEDIATE, the body, then COMMIT, or ROLLBACK if the body raised.
  unfoldable pub write_tx : Tx A → Tx A
  write_tx m c = let (r, c') = m (record c { saved = c.db }) in finish r c'
