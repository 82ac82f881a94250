-- ===== src/Portal/Requests/Sound/Pins.antt =====
-- The counter of wrong PINs in `recover`: it is raised only below the lockout.
use rodeo_cli.Base.{
  ◌≡◌, refl, String, false, Option, none, some, ok, inl, inr, Bool-cases, Outcome-cases, ◌==◌,
  string_eq, leb, arith,
}
use rodeo_cli.Base.Rows.{find_by, update_where}
use rodeo_cli.Portal.Python.{Python}
use rodeo_cli.Portal.Db.{Db, Claim, claim_email, unique_claims}
use rodeo_cli.Portal.Db.Sound.{IsSound, write_claims-IsSound, all-miss, all-update_where}
use rodeo_cli.Portal.Tx.{Connection, written, ◌>>=◌}
use rodeo_cli.Portal.Tx.Keeps.{Keeps}
use rodeo_cli.Portal.Pin.{check_pin}
use rodeo_cli.Portal.Settings.{settings, code_matches}
use rodeo_cli.Portal.Students.{
  Draw, miss, renew, recover_claim, recover_row, recover_body, check_code, update_by_email,
}

-- A wrong PIN is counted below the lockout only.
pub miss-IsSound :
    (py : Python) (email : String) (c : Claim) (db db' : Db)
    → IsSound db
    → find_by claim_email email db.claims ≡ some c
    → leb 5 c.bad_pins ≡ false
    → update_by_email email (miss py) db ≡ ok db'
    → IsSound db'
unfolding update_by_email unique_claims
miss-IsSound py email c db db' s e low h =
    write_claims-IsSound (update_where (λ d. email == d.email) (miss py) db.claims) db db' s
      (all-miss email (miss py) db.claims c (ground (arith, s.valid.claims_unique)) e (ground arith)
        s.pins)
      h

renew-IsSound :
    (py : Python) (draw : Draw py) (email : String) (db db' : Db)
    → IsSound db
    → update_by_email email (renew py draw) db ≡ ok db'
    → IsSound db'
unfolding update_by_email
renew-IsSound py draw email db db' s h =
    write_claims-IsSound (update_where (λ d. email == d.email) (renew py draw) db.claims) db db' s
      (all-update_where _ (renew py draw) db.claims (λ d w. refl) s.pins) h

twice : {A : Type 0} → A → A × A
twice a = (a, a)

module _ (py : Python) (draw : Draw py) (email pin : String) where
  recover_claim-IsSound :
      (c : Claim) (k : Connection)
      → find_by claim_email email k.db.claims ≡ some c
      → IsSound k.db
      → IsSound k.saved
      → IsSound (recover_claim py draw email pin c k).1.db
        × IsSound (recover_claim py draw email pin c k).1.saved
  unfolding recover_claim ◌>>=◌ written
  recover_claim-IsSound c k e s t = elim (Bool-cases (leb 5 c.bad_pins)) [
    | inl full ↦ rw full (s, t)
    | inr low ↦ elim (Bool-cases (check_pin py pin c.pin_hash)) [
      | inl right ↦ elim (Outcome-cases (update_by_email email (renew py draw) k.db)) [
        | inl (db, p) ↦ rw (low, right, p) (renew-IsSound py draw email k.db db s p, t)
        | inr (x, p) ↦ rw (low, right, p) (s, t)
      ]
      | inr wrong ↦ elim (Outcome-cases (update_by_email email (miss py) k.db)) [
        | inl (db, p) ↦ rw (low, wrong, p) (twice (miss-IsSound py email c k.db db s e low p))
        | inr (x, p) ↦ rw (low, wrong, p) (s, t)
      ]
    ]
  ]

  recover_row-IsSound :
      (o : Option Claim) (k : Connection)
      → find_by claim_email email k.db.claims ≡ o
      → IsSound k.db
      → IsSound k.saved
      → IsSound (recover_row py draw email pin o k).1.db
        × IsSound (recover_row py draw email pin o k).1.saved
  recover_row-IsSound none k e s t = unfold recover_row ◌>>=◌ in (s, t)
  recover_row-IsSound (some c) k e s t = elim (Bool-cases (c.source == "open")) [
    | inl is_open ↦ unfold recover_row in rw is_open (recover_claim-IsSound c k e s t)
    | inr reserved ↦ unfold recover_row ◌>>=◌ in rw reserved (s, t)
  ]

pub recover_body-IsSound :
    (py : Python) (draw : Draw py) (code email pin : String)
    → Keeps IsSound (recover_body py draw code email pin)
unfolding recover_body check_code ◌>>=◌
recover_body-IsSound py draw code email pin = record {
  at = λ k s t. elim (Bool-cases ((settings k.db).mode == "roster")) [
    | inl links ↦ rw links (s, t)
    | inr any ↦ elim (Bool-cases (code_matches py code (settings k.db).code)) [
      | inl right ↦
          rw (any, right)
            (recover_row-IsSound py draw email pin (find_by claim_email email k.db.claims) k refl s
              t)
      | inr wrong ↦ rw (any, wrong) (s, t)
    ]
  ];
}
