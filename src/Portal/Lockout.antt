-- ===== src/Portal/Lockout.antt =====
-- Guessing PINs, one call of `recover` after another (rodeo/portal/claims.py).
use Prim.Native.Nat.{min}
use rodeo_cli.Base.{
  ◌≡◌, refl, ◌∙◌, ℕ, ◌+◌, ◌≤◌, String, false, some, List, [], ◌∷◌, inl, inr, err, Bool-cases, ◌==◌,
  string_eq, leb, arith,
}
use rodeo_cli.Base.Lists.{length}
use rodeo_cli.Base.Rows.{update_where, find_by-update_where, find_by-some}
use rodeo_cli.Portal.Python.{Python}
use rodeo_cli.Portal.Db.{Db, Claim, claim_email, get_setting}
use rodeo_cli.Portal.Db.Valid.{IsValid, write_claims-IsValid}
use rodeo_cli.Portal.Tx.{Connection}
use rodeo_cli.Portal.Pin.{six_digits, check_pin}
use rodeo_cli.Portal.Settings.{settings}
use rodeo_cli.Portal.Students.{Draw, locked, miss, recover, update_by_email}
use rodeo_cli.Portal.Recovery.{IsAsked, update-miss, recover_wrong, recover-locked}

pub record Guess (py : Python) : Type 0 where
  pub draw : Draw py
  pub pin : String

module _ (py : Python) (code email : String) where
  -- One call of `recover` after another.
  pub attempts : Connection → List (Guess py) → Connection
  attempts k [] = k
  attempts k (g ∷ gs) = attempts (recover py g.draw code email g.pin k).1 gs

  -- Six digits, and not the PIN that is stored.
  abbrev pub IsWrong : Claim → Guess py → Type 0
  IsWrong c g =
      (ds : List ℕ) × (six_digits py g.pin ≡ some ds) × (check_pin py g.pin c.pin_hash ≡ false)

  abbrev pub AllWrong : Claim → List (Guess py) → Type 0
  AllWrong c [] = Unit
  AllWrong c (g ∷ gs) = IsWrong c g × AllWrong c gs

  module _ (db : Db) (e : String) (c : Claim) (asked : IsAsked py code email db e c)
      (valid : IsValid db) where
    abbrev after_miss : Db
    after_miss = record db { claims = update_where (λ d. e == d.email) (miss py) db.claims }

    miss-IsValid : IsValid after_miss
    unfolding update_by_email
    miss-IsValid =
        write_claims-IsValid (update_where (λ d. e == d.email) (miss py) db.claims) db after_miss
          valid (update-miss py e db valid)

    miss-IsAsked : IsAsked py code email after_miss e (miss py c)
    miss-IsAsked = record {
      normal = asked.normal;
      not_roster = unfold settings get_setting in asked.not_roster;
      code_right = unfold settings get_setting in asked.code_right;
      found =
          find_by-update_where claim_email (λ d. e == d.email) (miss py) (λ d. refl) e db.claims c
            asked.found
          ∙ ground (arith, (find_by-some claim_email e db.claims c asked.found).0);
      is_open = asked.is_open;
    }

  -- What some wrong guesses leave: the claim, with the count of them up to the lockout.
  record IsCounted (k : Connection) (e : String) (c : Claim) (n : ℕ) : Type 0 where
    now : Claim
    asked : IsAsked py code email k.db e now
    valid : IsValid k.db
    count : now.bad_pins ≡ min 5 (c.bad_pins + n)

  attempts_count :
      (k : Connection) (e : String) (c : Claim) (gs : List (Guess py))
      → IsAsked py code email k.db e c
      → IsValid k.db
      → c.bad_pins ≤ 5
      → AllWrong c gs
      → IsCounted (attempts k gs) e c (length gs)
  unfolding attempts
  attempts_count k e c [] a v low w = record { now = c; asked = a; valid = v; count = omega arith }
  attempts_count k e c (g ∷ gs) a v low ((ds, six, wrong), w) =
      elim (Bool-cases (leb 5 c.bad_pins)) [
        | inl full ↦
            let same = (recover-locked py code email g.draw g.pin ds six k e c a full).1 in
            let rest =
              attempts_count (recover py g.draw code email g.pin k).1 e c gs (rw same a) (rw same v)
                low w in
            record {
              now = rest.now;
              asked = rest.asked;
              valid = rest.valid;
              count = ground (arith, rest.count);
            }
        | inr below ↦
            let next = (recover_wrong py code email g.draw g.pin ds six k e c a v below wrong).1 in
            let rest =
              attempts_count (recover py g.draw code email g.pin k).1 e (miss py c) gs
                (rw next (miss-IsAsked k.db e c a v)) (rw next (miss-IsValid k.db e c a v))
                (ground arith) w in
            record {
              now = rest.now;
              asked = rest.asked;
              valid = rest.valid;
              count = ground (arith, rest.count);
            }
      ]

  -- With the right code, for an email with an open claim: after wrong guesses of six digits that
  -- bring its counter to 5 or would bring it further, every PIN of six digits is refused as locked,
  -- also the right one. This is so where the constraints hold and the counter was at most 5.
  pub attempts-locked :
      (k : Connection) (e : String) (c : Claim) (gs : List (Guess py)) (g : Guess py) (ds : List ℕ)
      → IsAsked py code email k.db e c
      → IsValid k.db
      → c.bad_pins ≤ 5
      → AllWrong c gs
      → 5 ≤ c.bad_pins + length gs
      → six_digits py g.pin ≡ some ds
      → (recover py g.draw code email g.pin (attempts k gs)).0 ≡ err locked
  attempts-locked k e c gs g ds a v low w many six =
      let s = attempts_count k e c gs a v low w in
      (recover-locked py code email g.draw g.pin ds six (attempts k gs) e s.now s.asked
        (ground (arith, s.count))).0
