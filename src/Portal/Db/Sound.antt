-- ===== src/Portal/Db/Sound.antt =====
-- The invariant of the portal's tables, for each statement: the constraints hold, and no counter of
-- wrong PINs passes the lockout.
use rodeo_cli.Base.{
  ◌≡◌, refl, String, Bool, true, List, [], ◌∷◌, ◌++◌, ok, ◌==◌, some, string_eq, leb, arith,
}
use rodeo_cli.Base.Lists.{all, keep, all-keep, all-append}
use rodeo_cli.Base.Rows.{find_by, is_unique, update_where, update_where-absent}
use rodeo_cli.Portal.Db.{
  Lab, Claim, Db, claim_email, write_claims, insert_claim, upsert_lab, set_setting,
}
use rodeo_cli.Portal.Db.Valid.{
  IsValid, write_claims-IsValid, set_setting-IsValid, keep_claims-IsValid, upsert_lab-IsValid,
}

abbrev pub within : Claim → Bool
within c = leb c.bad_pins 5

pub record IsSound (db : Db) : Type 0 where
  pub valid : IsValid db
  pub pins : all within db.claims ≡ true

pub set_setting-IsSound : (k x : String) (db : Db) → IsSound db → IsSound (set_setting k x db)
set_setting-IsSound k x db s = record {
  valid = set_setting-IsValid k x db s.valid;
  pins = unfold set_setting in s.pins;
}

pub keep_claims-IsSound :
    (p : Claim → Bool) (db : Db) → IsSound db → IsSound (record db { claims = keep p db.claims })
keep_claims-IsSound p db s = record {
  valid = keep_claims-IsValid p db s.valid;
  pins = all-keep within p db.claims s.pins;
}

pub upsert_lab-IsSound : (l : Lab) (db : Db) → IsSound db → IsSound (upsert_lab l db)
upsert_lab-IsSound l db s = record {
  valid = upsert_lab-IsValid l db s.valid;
  pins = unfold upsert_lab in s.pins;
}

pub write_claims-IsSound :
    (rows : List Claim) (db db' : Db)
    → IsSound db
    → all within rows ≡ true
    → write_claims rows db ≡ ok db'
    → IsSound db'
write_claims-IsSound rows db db' s w h = record {
  valid = write_claims-IsValid rows db db' s.valid h;
  pins = unfold write_claims in ground arith;
}

pub insert_claim-IsSound :
    (c : Claim) (db db' : Db)
    → c.bad_pins ≡ 0
    → IsSound db
    → insert_claim c db ≡ ok db'
    → IsSound db'
unfolding insert_claim
insert_claim-IsSound c db db' z s h =
    write_claims-IsSound (db.claims ++ c ∷ []) db db' s
      (ground (arith, all-append within db.claims (c ∷ []), s.pins)) h

-- An update that lets no counter pass the lockout.
pub all-update_where :
    (p : Claim → Bool) (f : Claim → Claim) (rows : List Claim)
    → ((c : Claim) → within c ≡ true → within (f c) ≡ true)
    → all within rows ≡ true
    → all within (update_where p f rows) ≡ true
unfolding update_where
all-update_where p f [] w h = refl
all-update_where p f (c ∷ rows) w h = ground (arith, all-update_where p f rows w, w c)

-- One claim has the email, and its counter is below the lockout: another wrong PIN is counted.
pub all-miss :
    (email : String) (f : Claim → Claim) (rows : List Claim) (c : Claim)
    → is_unique claim_email rows ≡ true
    → find_by claim_email email rows ≡ some c
    → within (f c) ≡ true
    → all within rows ≡ true
    → all within (update_where (λ d. email == d.email) f rows) ≡ true
unfolding update_where find_by is_unique
all-miss email f [] c u e w h = refl
all-miss email f (d ∷ rows) c u e w h =
    ground (arith, all-miss email f rows c, update_where-absent claim_email f email rows)
