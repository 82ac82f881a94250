-- ===== src/Portal/Recovery.antt =====
-- What `recover` of rodeo/portal/claims.py does for an email that has a claim: a right PIN, a wrong
-- one, and any PIN at the lockout.
use rodeo_cli.Base.{
  ◌≡◌, refl, ℕ, String, Bool, true, false, some, List, [], ◌∷◌, ok, err, ◌==◌, string_eq, leb, ◌+◌,
  ◌∙◌, ==_refl, arith,
}
use rodeo_cli.Base.Rows.{
  has, find_by, update_where, is_unique-update_where, is_unique-set_one, find_by-some,
  find_by-update_where,
}
use rodeo_cli.Portal.Python.{Python}
use rodeo_cli.Portal.Db.{
  Db, Lab, Claim, claim_lab, claim_email, claim_token, unique_claims, references_hold, write_claims,
}
use rodeo_cli.Portal.Db.Valid.{IsValid}
use rodeo_cli.Portal.Tx.{Connection, written, write_tx, ◌>>=◌}
use rodeo_cli.Portal.Pin.{six_digits, check_pin}
use rodeo_cli.Portal.Settings.{settings, code_matches}
use rodeo_cli.Portal.Students.{
  Draw, normalize_email, no_match, locked, miss, renew, update_by_email, recover_claim, recover_row,
  check_code, recover_body, recover_checked, recover,
}

-- An update by email that leaves the labs of the claims alone keeps the references.
pub references-update :
    (p : Claim → Bool) (f : Claim → Claim) (labs : List Lab) (rows : List Claim)
    → ((c : Claim) → (f c).lab_id ≡ c.lab_id)
    → references_hold labs (update_where p f rows) ≡ references_hold labs rows
unfolding references_hold update_where
references-update p f labs [] same = refl
references-update p f labs (c ∷ rows) same =
    ground (arith, references-update p f labs rows same, same c)

-- An update of the claims of an email is found under it.
find_by-update_email :
    (e : String) (f : Claim → Claim) (rows : List Claim) (c : Claim)
    → ((d : Claim) → (f d).email ≡ d.email)
    → find_by claim_email e rows ≡ some c
    → find_by claim_email e (update_where (λ d. e == d.email) f rows) ≡ some (f c)
find_by-update_email e f rows c same h =
    let (own, _) = find_by-some claim_email e rows c h in
    let at : (e == c.email) ≡ true = rw own (==_refl e) in
    find_by-update_where claim_email (λ d. e == d.email) f same e rows c h ∙ rw at refl

module _ (py : Python) (email : String) (db : Db) (valid : IsValid db) where
  abbrev pub counted : Db
  counted = record db { claims = update_where (λ c. email == c.email) (miss py) db.claims }

  -- Counting a wrong PIN breaks no constraint.
  pub update-miss : update_by_email email (miss py) db ≡ ok counted
  unfolding update_by_email write_claims unique_claims
  update-miss = ground (
    arith,
    valid.claims_unique,
    valid.references,
    is_unique-update_where claim_lab (λ c. email == c.email) (miss py) (λ c. refl) db.claims,
    is_unique-update_where claim_email (λ c. email == c.email) (miss py) (λ c. refl) db.claims,
    is_unique-update_where claim_token (λ c. email == c.email) (miss py) (λ c. refl) db.claims,
    references-update (λ c. email == c.email) (miss py) db.labs db.claims (λ c. refl),
  )

  module _ (draw : Draw py) (fresh : has claim_token (py.sha256 draw.token) db.claims ≡ false) where
    abbrev renewed : Db
    renewed = record db { claims = update_where (λ c. email == c.email) (renew py draw) db.claims }

    -- A link whose hash is new breaks none either.
    update-renew : update_by_email email (renew py draw) db ≡ ok renewed
    unfolding update_by_email write_claims unique_claims
    update-renew = ground (
      arith,
      valid.claims_unique,
      valid.references,
      fresh,
      is_unique-update_where claim_lab (λ c. email == c.email) (renew py draw) (λ c. refl)
          db.claims,
      is_unique-update_where claim_email (λ c. email == c.email) (renew py draw) (λ c. refl)
          db.claims,
      is_unique-set_one claim_email claim_token (renew py draw) email (py.sha256 draw.token)
          db.claims (λ c. refl),
      references-update (λ c. email == c.email) (renew py draw) db.labs db.claims (λ c. refl),
    )

module _ (py : Python) (code email : String) where
  -- `recover` is asked with the right code for an email whose claim is an open one.
  pub record IsAsked (db : Db) (address : String) (c : Claim) : Type 0 where
    pub normal : normalize_email py email ≡ ok address
    pub not_roster : ((settings db).mode == "roster") ≡ false
    pub code_right : code_matches py code (settings db).code ≡ true
    pub found : find_by claim_email address db.claims ≡ some c
    pub is_open : (c.source == "open") ≡ true

  module _ (draw : Draw py) (pin : String) (digits : List ℕ)
      (six : six_digits py pin ≡ some digits) where
    recover_lem :
        (k : Connection) (e : String) (c : Claim)
        → IsAsked k.db e c
        → recover py draw code email pin k ≡ write_tx (recover_claim py draw e pin c) k
    recover_lem k e c a =
        unfold recover recover_checked recover_body check_code recover_row write_tx ◌>>=◌ in
        rw (a.normal, six, a.not_roster, a.code_right, a.found, a.is_open)

    -- Asked as `IsAsked` says, with six digits: from a right PIN, below the lockout, `recover` returns the lab that the claim had, with the
    -- new token. The claim has the hash of that token and a counter of 0; nothing else changes.
    -- This is so where the constraints hold and the hash is new.
    pub recover_right :
        (k : Connection) (e : String) (c : Claim)
        → IsAsked k.db e c
        → IsValid k.db
        → has claim_token (py.sha256 draw.token) k.db.claims ≡ false
        → leb 5 c.bad_pins ≡ false
        → check_pin py pin c.pin_hash ≡ true
        → ((recover py draw code email pin k).0 ≡ ok (draw.token, c.lab_id))
          × ((recover py draw code email pin k).1.db ≡ record k.db {
            claims =
                update_where
                  (λ d. e == d.email)
                  (λ d. record d { token_hash = py.sha256 draw.token; bad_pins = 0 })
                  k.db.claims;
          })
          × (find_by claim_email e (recover py draw code email pin k).1.db.claims
              ≡ some (record c { token_hash = py.sha256 draw.token; bad_pins = 0 }))
    recover_right k e c a valid fresh low right =
        let u = update-renew py e k.db valid draw fresh in
        rw (recover_lem k e c a) (
          unfold recover_claim write_tx ◌>>=◌ written in
          rw (low, right, u)
            (refl, refl, find_by-update_email e _ k.db.claims c (λ d. refl) a.found))

    -- Asked as `IsAsked` says, with six digits: a wrong PIN below the lockout is refused as no match,
    -- and the claim has one more wrong PIN afterwards, and nothing else changes. This is so where the
    -- constraints hold.
    pub recover_wrong :
        (k : Connection) (e : String) (c : Claim)
        → IsAsked k.db e c
        → IsValid k.db
        → leb 5 c.bad_pins ≡ false
        → check_pin py pin c.pin_hash ≡ false
        → ((recover py draw code email pin k).0 ≡ err no_match)
          × ((recover py draw code email pin k).1.db ≡ record k.db {
            claims =
                update_where
                  (λ d. e == d.email)
                  (λ d. record d { bad_pins = d.bad_pins + 1 })
                  k.db.claims;
          })
          × (find_by claim_email e (recover py draw code email pin k).1.db.claims
              ≡ some (record c { bad_pins = c.bad_pins + 1 }))
    recover_wrong k e c a valid low wrong =
        let u = update-miss py e k.db valid in
        rw (recover_lem k e c a) (
          unfold recover_claim write_tx ◌>>=◌ written in
          rw (low, wrong, u)
            (refl, refl, find_by-update_email e _ k.db.claims c (λ d. refl) a.found))

    -- Asked as `IsAsked` says, with six digits: at the lockout every PIN is refused, the right one too, and nothing changes.
    pub recover-locked :
        (k : Connection) (e : String) (c : Claim)
        → IsAsked k.db e c
        → leb 5 c.bad_pins ≡ true
        → ((recover py draw code email pin k).0 ≡ err locked)
          × ((recover py draw code email pin k).1.db ≡ k.db)
    recover-locked k e c a full =
        rw (recover_lem k e c a) (unfold recover_claim write_tx ◌>>=◌ in rw full (refl, refl))
