-- ===== src/Portal/Requests/Sound/Statements.antt =====
-- The invariant of the tables for each statement, as rules for actions.
use rodeo_cli.Base.{
  ◌≡◌, String, Bool, true, false, not, Option, none, some, List, [], ◌∷◌, ◌==◌, string_eq, contains,
  if◌then◌else◌, arith,
}
use rodeo_cli.Base.Lists.{keep, all-keep}
use rodeo_cli.Base.Dict.{Dict}
use rodeo_cli.Base.Rows.{update_where, is_unique-keep}
use rodeo_cli.Portal.Db.{
  Db, Lab, Claim, lab_key, set_setting, insert_claim, write_claims, upsert_lab,
}
use rodeo_cli.Portal.Db.Valid.{IsValid, keep_claims-IsValid}
use rodeo_cli.Portal.Db.Sound.{
  IsSound, within, set_setting-IsSound, keep_claims-IsSound, upsert_lab-IsSound,
  insert_claim-IsSound, write_claims-IsSound, all-update_where,
}
use rodeo_cli.Portal.Tx.{execute, modify}
use rodeo_cli.Portal.Tx.Keeps.{Keeps, Keeps-execute, Keeps-modify}
use rodeo_cli.Portal.Settings.{set_optional, set_if_missing}
use rodeo_cli.Portal.Students.{update_by_email, mark_opened}
use rodeo_cli.Portal.Instructor.{delete_claims, delete_labs, set_progress_rows}

set_optional-IsSound :
    (k : String) (o : Option String) (db : Db) → IsSound db → IsSound (set_optional k o db)
unfolding set_optional
set_optional-IsSound k none db s = s
set_optional-IsSound k (some v) db s = set_setting-IsSound k v db s

set_if_missing-IsSound : (k v : String) (db : Db) → IsSound db → IsSound (set_if_missing k v db)
unfolding set_if_missing
set_if_missing-IsSound k v db s = ground (arith, set_setting-IsSound k v db s)

pub Keeps-set : (k v : String) → Keeps IsSound (modify (set_setting k v))
Keeps-set k v = Keeps-modify _ (set_setting-IsSound k v)

pub Keeps-set_optional :
    (k : String) (o : Option String) → Keeps IsSound (modify (set_optional k o))
Keeps-set_optional k o = Keeps-modify _ (set_optional-IsSound k o)

pub Keeps-set_if_missing : (k v : String) → Keeps IsSound (modify (set_if_missing k v))
Keeps-set_if_missing k v = Keeps-modify _ (set_if_missing-IsSound k v)

pub Keeps-set_if :
    (b : Bool) (k v : String) → Keeps IsSound (modify (λ db. if b then db else set_setting k v db))
Keeps-set_if true k v = Keeps-modify _ (λ db s. s)
Keeps-set_if false k v = Keeps-set k v

pub Keeps-upsert_lab : (l : Lab) → Keeps IsSound (modify (upsert_lab l))
Keeps-upsert_lab l = Keeps-modify _ (upsert_lab-IsSound l)

pub Keeps-insert_claim : (c : Claim) → c.bad_pins ≡ 0 → Keeps IsSound (execute (insert_claim c))
Keeps-insert_claim c z = Keeps-execute _ (λ db db' s h. insert_claim-IsSound c db db' z s h)

pub Keeps-update_by_email :
    (email : String) (f : Claim → Claim)
    → ((c : Claim) → within c ≡ true → within (f c) ≡ true)
    → Keeps IsSound (execute (update_by_email email f))
unfolding update_by_email
Keeps-update_by_email email f w = Keeps-execute _ λ db db' s h.
    write_claims-IsSound (update_where (λ c. email == c.email) f db.claims) db db' s
      (all-update_where _ f db.claims w s.pins) h

pub Keeps-mark_opened :
    (now hash : String)
    → Keeps IsSound (
        execute (λ db.
          write_claims
            (update_where (λ c. hash == c.token_hash) (mark_opened now hash) db.claims)
            db))
unfolding mark_opened
Keeps-mark_opened now hash = Keeps-execute _ λ db db' s h.
    write_claims-IsSound (update_where (λ c. hash == c.token_hash) (mark_opened now hash) db.claims)
      db db' s (all-update_where _ (mark_opened now hash) db.claims (λ c w. w) s.pins) h

pub Keeps-delete_claims : (p : Claim → Bool) → Keeps IsSound (modify (delete_claims p))
unfolding delete_claims
Keeps-delete_claims p = Keeps-modify _ (keep_claims-IsSound (λ c. not (p c)))

set_progress_rows-IsSound :
    (labs : Dict String) (db : Db) → IsSound db → IsSound (set_progress_rows labs db)
unfolding set_progress_rows
set_progress_rows-IsSound [] db s = s
set_progress_rows-IsSound ((lab, json) ∷ labs) db s = set_progress_rows-IsSound labs _ (record {
  valid = record {
    labs_unique = s.valid.labs_unique;
    claims_unique = s.valid.claims_unique;
    references = s.valid.references;
  };
  pins = s.pins;
})

pub Keeps-set_progress :
    (now : String) (labs : Dict String)
    → Keeps IsSound (modify (λ db. set_setting "progress_at" now (set_progress_rows labs db)))
Keeps-set_progress now labs =
    Keeps-modify _ (λ db s. set_setting-IsSound _ now _ (set_progress_rows-IsSound labs db s))

pub Keeps-delete_labs : (ids : List String) → Keeps IsSound (execute (delete_labs ids))
unfolding delete_labs
Keeps-delete_labs ids = Keeps-execute _ λ db db' s h.
    let v : IsValid
        (record db { claims = keep (λ (c : Claim). not (contains ids c.lab_id)) db.claims }) =
      keep_claims-IsValid _ db s.valid in
    let u =
      is_unique-keep lab_key (λ (l : Lab). not (contains ids l.id)) db.labs s.valid.labs_unique in
    let w = all-keep within (λ (c : Claim). not (contains ids c.lab_id)) db.claims s.pins in
    record {
      valid = record {
        labs_unique = ground (arith, u);
        claims_unique = ground (arith, v.claims_unique);
        references = ground arith;
      };
      pins = ground (arith, w);
    }

pub ruleset statement_rules = (
  Keeps-set, Keeps-set_optional, Keeps-set_if_missing, Keeps-set_if, Keeps-upsert_lab,
  Keeps-insert_claim, Keeps-update_by_email, Keeps-mark_opened, Keeps-delete_claims,
  Keeps-set_progress, Keeps-delete_labs,
)
