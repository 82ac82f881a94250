-- ===== src/Portal/Db/Insert.antt =====
-- When a row can be inserted into `claims`, and what the table then holds.
use rodeo_cli.Base.{◌≡◌, ◌∙◌, true, false, [], ◌∷◌, ◌++◌, ok, some, arith, Bool-cases, inl, inr}
use rodeo_cli.Base.Lists.{all-append}
use rodeo_cli.Base.Rows.{has, find_by, is_unique-concat, concat-is_unique, find_by-append_absent}
use rodeo_cli.Portal.Db.{
  Db, Claim, lab_key, claim_lab, claim_email, claim_token, unique_claims, references_hold,
  insert_claim,
}
use rodeo_cli.Portal.Db.Valid.{IsValid, write_claims-IsValid}

module _ (c : Claim) (db : Db) where
  abbrev pub inserted : Db
  inserted = record db { claims = db.claims ++ c ∷ [] }

  -- The values of the unique columns are new.
  pub record IsNew : Type 0 where
    pub lab : has claim_lab c.lab_id db.claims ≡ false
    pub email : has claim_email c.email db.claims ≡ false
    pub token : has claim_token c.token_hash db.claims ≡ false

  pub insert_claim-ok : (db' : Db) → insert_claim c db ≡ ok db' → (db' ≡ inserted) × IsNew
  unfolding insert_claim unique_claims
  insert_claim-ok db' h = elim (Bool-cases (unique_claims (db.claims ++ c ∷ []))) [
    | inr no_ ↦ absurd (ground (arith, no_))
    | inl u ↦ (
      ground arith,
      record {
        lab = concat-is_unique claim_lab db.claims c (ground (arith, u));
        email = concat-is_unique claim_email db.claims c (ground (arith, u));
        token = concat-is_unique claim_token db.claims c (ground (arith, u));
      },
    )
  ]

  -- Where they are new, and the lab exists, no constraint fails.
  pub insert_claim_new :
      IsValid db → IsNew → has lab_key c.lab_id db.labs ≡ true → insert_claim c db ≡ ok inserted
  unfolding insert_claim unique_claims references_hold
  insert_claim_new v n r = ground (
    arith,
    v.claims_unique,
    v.references,
    is_unique-concat claim_lab db.claims c,
    is_unique-concat claim_email db.claims c,
    is_unique-concat claim_token db.claims c,
    all-append (λ d. has lab_key d.lab_id db.labs) db.claims (c ∷ []),
    n.lab,
    n.email,
    n.token,
  )

  pub inserted-IsValid : IsValid db → IsNew → has lab_key c.lab_id db.labs ≡ true → IsValid inserted
  unfolding insert_claim
  inserted-IsValid v n r =
      write_claims-IsValid (db.claims ++ c ∷ []) db inserted v (insert_claim_new v n r)

  -- The link of the new row finds it.
  pub find_by-inserted : IsNew → find_by claim_token c.token_hash (db.claims ++ c ∷ []) ≡ some c
  unfolding find_by
  find_by-inserted n =
      find_by-append_absent claim_token c.token_hash db.claims (c ∷ []) n.token ∙ ground arith

  -- And so does its email.
  pub find_email-inserted : IsNew → find_by claim_email c.email (db.claims ++ c ∷ []) ≡ some c
  unfolding find_by
  find_email-inserted n =
      find_by-append_absent claim_email c.email db.claims (c ∷ []) n.email ∙ ground arith
