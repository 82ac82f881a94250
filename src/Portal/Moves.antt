-- ===== src/Portal/Moves.antt =====
-- `reassign` of rodeo/portal/claims.py, where a lab is free and where it is taken.
use rodeo_cli.Base.{
  ◌<>◌, ◌≡◌, refl, ap, String, true, false, none, some, List, [], ◌∷◌, ok, err, ◌==◌, string_eq,
  arith,
}
use rodeo_cli.Base.Rows.{
  has, find_by, is_unique, update_where, find_by-update_where, find_by-some, find_by-in,
  in_of_find_by, find_by-none, is_unique-update_where, is_unique-set_one,
}
use rodeo_cli.Portal.Python.{Python}
use rodeo_cli.Portal.Db.{
  Db, Lab, Claim, claim, lab_key, claim_lab, claim_email, claim_token, unique_claims,
  references_hold, write_claims,
}
use rodeo_cli.Portal.Db.Valid.{IsValid}
use rodeo_cli.Portal.Tx.{Connection, written, write_tx, ◌>>=◌}
use rodeo_cli.Portal.Students.{view_of, normalize_email, update_by_email, view_of_token}
use rodeo_cli.Portal.Instructor.{check_move, reassign_body, reassign}

references-moved :
    (labs : List Lab) (e lab : String) (rows : List Claim)
    → has lab_key lab labs ≡ true
    → references_hold labs rows ≡ true
    → references_hold labs (update_where (λ c. e == c.email) (λ c. record c { lab_id = lab }) rows)
      ≡ true
unfolding references_hold update_where
references-moved labs e lab [] there h = refl
references-moved labs e lab (c ∷ rows) there h = ground (arith, references-moved labs e lab rows)

module _ (py : Python) (email lab : String) where
  abbrev pub to_lab : Claim → Claim
  to_lab c = record c { lab_id = lab }

  -- Moving one claim to a lab that has none breaks no constraint.
  update-to_lab :
      (e : String) (db : Db)
      → IsValid db
      → has lab_key lab db.labs ≡ true
      → has claim_lab lab db.claims ≡ false
      → update_by_email e to_lab db
        ≡ ok (record db { claims = update_where (λ c. e == c.email) to_lab db.claims })
  unfolding update_by_email write_claims unique_claims
  update-to_lab e db valid there free = ground (
    arith,
    valid.claims_unique,
    free,
    is_unique-update_where claim_email (λ c. e == c.email) to_lab (λ c. refl) db.claims,
    is_unique-update_where claim_token (λ c. e == c.email) to_lab (λ c. refl) db.claims,
    is_unique-set_one claim_email claim_lab to_lab e lab db.claims (λ c. refl),
    references-moved db.labs e lab db.claims there valid.references,
  )

  module _ (k : Connection) (e : String) (normal : normalize_email py email ≡ ok e) (l : Lab)
      (target : find_by lab_key lab k.db.labs ≡ some l) where
    reassign_lem :
        find_by claim_lab lab k.db.claims ≡ none
        → has claim_email e k.db.claims ≡ true
        → (db : Db) → update_by_email e to_lab k.db ≡ ok db
        → reassign py email lab k ≡ (ok tt, record { db = db; saved = db })
    reassign_lem free mine db u =
        unfold reassign reassign_body check_move write_tx ◌>>=◌ written in
        rw (normal, target, free, mine, u)

    -- A student with a claim moves to a lab that nobody has. The call returns; the claim is on that
    -- lab and nothing else changes; and the student's old link shows the new lab.
    pub reassign_moves :
        (c : Claim)
        → IsValid k.db
        → has claim_lab lab k.db.claims ≡ false
        → find_by claim_email e k.db.claims ≡ some c
        → ((reassign py email lab k).0 ≡ ok tt)
          × ((reassign py email lab k).1.db
              ≡ record k.db { claims = update_where (λ d. e == d.email) to_lab k.db.claims })
          × (view_of_token c.token_hash (reassign py email lab k).1.db
              ≡ some (view_of l (to_lab c)))
    reassign_moves c valid free found =
        let (same, mine) = find_by-some claim_email e k.db.claims c found in
        let u = update-to_lab e k.db valid (find_by-some lab_key lab k.db.labs l target).1 free in
        let unique : is_unique claim_token k.db.claims ≡ true =
          unfold unique_claims in ground (arith, valid.claims_unique) in
        let old =
          find_by-in claim_token c k.db.claims unique
            (in_of_find_by claim_email e c k.db.claims found) in
        let moved =
          find_by-update_where claim_token (λ d. e == d.email) to_lab (λ d. refl) c.token_hash
            k.db.claims c old in
        let s = reassign_lem (find_by-none claim_lab lab k.db.claims free) mine _ u in
        (
          ap (λ o. o.0) s,
          ap (λ o. o.1.db) s,
          rw s (unfold view_of_token in ground (arith, moved, target, same)),
        )

    -- A lab that another student has is refused, and nothing changes.
    pub reassign_taken :
        (c : Claim)
        → find_by claim_lab lab k.db.claims ≡ some c
        → (c.email == e) ≡ false
        → ((reassign py email lab k).0
            ≡ err (claim ("lab " <> (py.repr lab <> " is already assigned"))))
          × ((reassign py email lab k).1.db ≡ k.db)
    reassign_taken c found other =
        unfold reassign reassign_body check_move write_tx ◌>>=◌ in
        rw (normal, target, found, other) (refl, refl)
