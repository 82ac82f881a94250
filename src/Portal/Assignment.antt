-- ===== src/Portal/Assignment.antt =====
-- What a successful `claim_open` of rodeo/portal/claims.py changes, what a refused one leaves, and
-- the constraints of the database.
use rodeo_cli.Base.{
  ◌≡◌, ◌≢◌, refl, ◌∙◌, sym, ap, String, true, false, some, ok, err, inl, inr, Outcome-cases, ◌==◌,
  string_eq, ok-injective, err-injective, err-ne-ok, arith,
}
use rodeo_cli.Base.Rows.{has, find_by, find_by-in, has_of_in, has_of_find_by-none}
use rodeo_cli.Portal.Python.{Python}
use rodeo_cli.Portal.Text.{strip, prefix}
use rodeo_cli.Portal.Db.{
  Db, Lab, Claim, Error, integrity, lab_key, claim_email, claim_token, insert_claim,
}
use rodeo_cli.Portal.Db.Valid.{IsValid}
use rodeo_cli.Portal.Db.Insert.{
  inserted, IsNew, insert_claim-ok, insert_claim_new, find_by-inserted,
}
use rodeo_cli.Portal.Tx.{Connection, written, write_tx, ◌>>=◌}
use rodeo_cli.Portal.Settings.{settings, code_matches}
use rodeo_cli.Portal.Students.{
  Draw, LabView, view_of, normalize_email, new_claim, take_lab, claim_open, view_of_token,
}
use rodeo_cli.Portal.Claiming.{row_for, claim_open-cases}
use rodeo_cli.Portal.Claiming.Offer.{IsOffer, first_by_ord-IsOffer}

-- The link of a row that was inserted.
view_of_token-inserted :
    (c : Claim) (l : Lab) (db : Db)
    → IsNew c db
    → find_by lab_key c.lab_id db.labs ≡ some l
    → view_of_token c.token_hash (inserted c db) ≡ some (view_of l c)
unfolding view_of_token
view_of_token-inserted c l db n there = ground (arith, find_by-inserted c db n)

module _ (py : Python) (draw : Draw py) (email name pin : String) (l : Lab) (k : Connection) where
  abbrev row : Claim
  row = new_claim py draw l.id email name pin

  take_lab-ok :
      (db : Db)
      → insert_claim row k.db ≡ ok db
      → write_tx (take_lab py draw email name pin (some l)) k
        ≡ (ok (draw.token, l.id), record { db = db; saved = db })
  unfolding write_tx take_lab ◌>>=◌ written
  take_lab-ok db p = rw p

  take_lab-err :
      (x : Error)
      → insert_claim row k.db ≡ err x
      → write_tx (take_lab py draw email name pin (some l)) k ≡ (err x, record k { saved = k.db })
  unfolding write_tx take_lab ◌>>=◌ written
  take_lab-err x p = rw p

module _ (py : Python) (draw : Draw py) (code email name pin : String) (k : Connection) where
  -- What a successful call has done.
  pub record IsAssigned (r : String × String) (after : Db) : Type 0 where
    pub address : String
    pub lab : Lab
    pub normal : normalize_email py email ≡ ok address
    pub not_roster : ((settings k.db).mode == "roster") ≡ false
    pub code_right : code_matches py code (settings k.db).code ≡ true
    pub offer : IsOffer k.db lab
    pub is_new : IsNew (row_for py draw code email name pin address lab) k.db
    pub result : r ≡ (draw.token, lab.id)
    pub effect : after ≡ inserted (row_for py draw code email name pin address lab) k.db

  -- If `claim_open` returns, the workshop does not use links only and the code was right; it returns
  -- the new link's token and the id of a lab that was listed, ready and unclaimed, with no such lab before it in the order; its email had no claim; and the
  -- tables differ from those before by one row of `claims`, which is new in each unique column.
  pub claim_open-IsAssigned :
      (r : String × String)
      → (claim_open py draw code email name pin k).0 ≡ ok r
      → IsAssigned r (claim_open py draw code email name pin k).1.db
  claim_open-IsAssigned r h = elim (claim_open-cases py draw code email name pin k) [
    | inl (x, n, p, q) ↦ absurd (ground (arith, p))
    | inr (e, l, p, m, a, f, g, t) ↦
        elim (Outcome-cases (insert_claim (row_for py draw code email name pin e l) k.db)) [
          | inr (x, u) ↦ absurd (
              err-ne-ok (
                ap (λ o. o.0)
                  (sym (t ∙ take_lab-err py draw e (prefix 80 (strip name)) pin l k x u))
                ∙ h))
          | inl (db, u) ↦
              let s = t ∙ take_lab-ok py draw e (prefix 80 (strip name)) pin l k db u in
              let (d, n) = insert_claim-ok (row_for py draw code email name pin e l) k.db db u in
              record {
                address = e;
                lab = l;
                normal = p;
                not_roster = m;
                code_right = a;
                offer = first_by_ord-IsOffer k.db l g;
                is_new = n;
                result = ok-injective (sym h ∙ ap (λ o. o.0) s);
                effect = ap (λ o. o.1.db) s ∙ d;
              }
        ]
  ]

  -- Where each lab is listed once, the token that `claim_open` returned finds the lab that it
  -- returned, under the student's email and name.
  pub claim_open-view_of_token :
      (r : String × String)
      → IsValid k.db
      → (claim_open py draw code email name pin k).0 ≡ ok r
      → (v : LabView) × (view_of_token
            (py.sha256 r.0)
            (claim_open py draw code email name pin k).1.db
          ≡ some v)
        × (v.id ≡ r.1)
        × (normalize_email py email ≡ ok v.email)
        × (v.name ≡ prefix 80 (strip name))
  claim_open-view_of_token r valid h =
      let a = claim_open-IsAssigned r h in
      let new = row_for py draw code email name pin a.address a.lab in
      let there = find_by-in lab_key a.lab k.db.labs valid.labs_unique a.offer.listed in
      let shown : view_of_token (py.sha256 draw.token) (inserted new k.db)
          ≡ some (view_of a.lab new) =
        unfold new_claim in view_of_token-inserted new a.lab k.db a.is_new there in
      (
        view_of a.lab new,
        rw (ap (λ p. p.0) a.result, a.effect) shown,
        sym (ap (λ p. p.1) a.result),
        unfold new_claim in a.normal,
        unfold new_claim in refl,
      )

  -- No constraint of the database fails under `claim_open`: its own tests come first. This is so
  -- where the tables satisfy the constraints and the token that is drawn has a hash that is new.
  pub claim_open-ne-integrity :
      IsValid k.db
      → has claim_token (py.sha256 draw.token) k.db.claims ≡ false
      → (claim_open py draw code email name pin k).0 ≢ err integrity
  claim_open-ne-integrity valid fresh h = elim (claim_open-cases py draw code email name pin k) [
    | inl (x, n, p, q) ↦ n (err-injective (sym p ∙ h))
    | inr (e, l, p, m, a, f, g, t) ↦
        let offer = first_by_ord-IsOffer k.db l g in
        let new = row_for py draw code email name pin e l in
        let is_new : IsNew new k.db = record {
          lab = unfold new_claim in offer.is_free;
          email = unfold new_claim in has_of_find_by-none claim_email e k.db.claims f;
          token = unfold new_claim in fresh;
        } in
        let s =
          insert_claim_new new k.db valid is_new
            (unfold new_claim in has_of_in lab_key l k.db.labs offer.listed) in
        err-ne-ok
          (sym h ∙ ap (λ o. o.0) (t ∙ take_lab-ok py draw e (prefix 80 (strip name)) pin l k _ s))
  ]

  -- A call that raises has changed no table.
  pub claim_open-rollback :
      (x : Error)
      → (claim_open py draw code email name pin k).0 ≡ err x
      → (claim_open py draw code email name pin k).1.db ≡ k.db
  claim_open-rollback x h = elim (claim_open-cases py draw code email name pin k) [
    | inl (y, n, p, q) ↦ q
    | inr (e, l, p, m, a, f, g, t) ↦
        elim (Outcome-cases (insert_claim (row_for py draw code email name pin e l) k.db)) [
          | inr (y, u) ↦
              ap (λ o. o.1.db) (t ∙ take_lab-err py draw e (prefix 80 (strip name)) pin l k y u)
          | inl (db, u) ↦ absurd (
              err-ne-ok (
                sym h
                ∙ ap (λ o. o.0) (t ∙ take_lab-ok py draw e (prefix 80 (strip name)) pin l k db u)))
        ]
  ]
