-- ===== src/Portal/Db/Valid.antt =====
-- What the tables of the portal satisfy: each lab is claimed once at most, each student and each
-- link has one claim, and a claim is on a lab that exists. Here for the statements.
use rodeo_cli.Base.{◌≡◌, refl, String, Bool, true, List, [], ◌∷◌, ok, ◌==◌, string_eq, arith}
use rodeo_cli.Base.Lists.{keep, all-keep, all_weaken}
use rodeo_cli.Base.Rows.{has, is_unique, update_where, has-append, is_unique-keep, is_unique-concat}
use rodeo_cli.Portal.Db.{
  Lab, Claim, Db, lab_key, claim_lab, claim_email, claim_token, unique_claims, references_hold,
  write_claims, upsert_lab, set_setting,
}

pub record IsValid (db : Db) : Type 0 where
  pub labs_unique : is_unique lab_key db.labs ≡ true
  pub claims_unique : unique_claims db.claims ≡ true
  pub references : references_hold db.labs db.claims ≡ true

pub write_claims-IsValid :
    (rows : List Claim) (db db' : Db) → IsValid db → write_claims rows db ≡ ok db' → IsValid db'
unfolding write_claims
write_claims-IsValid rows db db' v h = ground arith

pub set_setting-IsValid : (k x : String) (db : Db) → IsValid db → IsValid (set_setting k x db)
unfolding set_setting
set_setting-IsValid k x db v = record {
  labs_unique = v.labs_unique;
  claims_unique = v.claims_unique;
  references = v.references;
}

-- Claims that are deleted break nothing.
pub keep_claims-IsValid :
    (p : Claim → Bool) (db : Db) → IsValid db → IsValid (record db { claims = keep p db.claims })
unfolding unique_claims references_hold
keep_claims-IsValid p db v = record {
  labs_unique = v.labs_unique;
  claims_unique = ground (
    arith,
    is_unique-keep claim_lab p db.claims,
    is_unique-keep claim_email p db.claims,
    is_unique-keep claim_token p db.claims,
    v.claims_unique,
  );
  references = all-keep (λ c. has lab_key c.lab_id db.labs) p db.claims v.references;
}

-- The labs that replace others of the same id keep the ids.
has-replace :
    (l : Lab) (k : String) (labs : List Lab)
    → has lab_key k (update_where (λ (m : Lab). l.id == m.id) (λ _. l) labs) ≡ has lab_key k labs
unfolding has update_where
has-replace l k [] = refl
has-replace l k (m ∷ labs) = ground (arith, has-replace l k labs)

is_unique-replace :
    (l : Lab) (labs : List Lab)
    → is_unique lab_key (update_where (λ (m : Lab). l.id == m.id) (λ _. l) labs)
      ≡ is_unique lab_key labs
unfolding is_unique update_where
is_unique-replace l [] = refl
is_unique-replace l (m ∷ labs) =
    ground (arith, is_unique-replace l labs, has-replace l l.id labs, has-replace l m.id labs)

pub has-upsert_lab :
    (l : Lab) (k : String) (db : Db)
    → has lab_key k db.labs ≡ true
    → has lab_key k (upsert_lab l db).labs ≡ true
unfolding upsert_lab
has-upsert_lab l k db h =
    ground (arith, has-replace l k db.labs, has-append lab_key k db.labs (l ∷ []))

pub upsert_lab-IsValid : (l : Lab) (db : Db) → IsValid db → IsValid (upsert_lab l db)
upsert_lab-IsValid l db v = record {
  labs_unique =
      unfold upsert_lab in
      ground
        (arith, v.labs_unique, is_unique-replace l db.labs, is_unique-concat lab_key db.labs l);
  claims_unique = unfold upsert_lab in v.claims_unique;
  references =
      unfold upsert_lab references_hold in
      all_weaken (λ c. has lab_key c.lab_id db.labs)
        (λ c. has lab_key c.lab_id (upsert_lab l db).labs) db.claims
        (λ c. has-upsert_lab l c.lab_id db) v.references;
}
