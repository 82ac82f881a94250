-- ===== src/Portal/Claiming.antt =====
-- What `claim_open` of rodeo/portal/claims.py gives a student, and when it refuses.
pub mod Offer
use rodeo_cli.Base.{
  ◌≡◌, ◌≢◌, refl, ◌∙◌, ℕ, String, Bool, true, false, not, ◌&&◌, Option, none, some, List, [], ◌∷◌,
  ◌++◌, Outcome, ok, err, ◌⊎◌, inl, inr, Bool-cases, Option-cases, Outcome-cases, ◌==◌, string_eq,
  if◌then◌else◌, arith, ltb_ℤ, ltb_ℤ_irrefl, ltb_ℤ_trans, ltb_ℤ_asym,
}
use rodeo_cli.Base.Lists.{In, keep, in_keep, keep_in}
use rodeo_cli.Base.Rows.{
  has, find_by, is_unique, concat-is_unique, find_by-append_absent, find_by-none, has-append,
}
use rodeo_cli.Portal.Python.{Python}
use rodeo_cli.Portal.Text.{strip, prefix, is_empty}
use rodeo_cli.Portal.Db.{
  Db, Lab, Claim, Error, claim, integrity, lab_key, claim_lab, claim_email, claim_token, free_labs,
  first_by_ord, insert_claim, write_claims, unique_claims, references_hold,
}
use rodeo_cli.Portal.Tx.{Connection, Tx, written, write_tx, ◌>>=◌}
use rodeo_cli.Portal.Pin.{pin_problem}
use rodeo_cli.Portal.Settings.{Settings, settings, code_matches}
use rodeo_cli.Portal.Students.{
  Draw, LabView, uses_links, closed, bad_code, has_a_lab, has_a_link, no_free_lab, normalize_email,
  check_workshop, refuse_existing, new_claim, take_lab, claim_body, claim_checked, claim_open,
  view_of_token,
}

-- The tests of the settings let the call go on, or refuse it, and write nothing.
pub check_workshop-cases :
    (py : Python) (code : String) (s : Settings) (k : Connection)
    → (((s.mode == "roster") ≡ false)
        × (code_matches py code s.code ≡ true)
        × (check_workshop py code s k ≡ (ok tt, k)))
      ⊎ ((x : Error) × (x ≢ integrity) × (check_workshop py code s k ≡ (err x, k)))
check_workshop-cases py code s k = elim (Bool-cases (s.mode == "roster")) [
  | inl p ↦ inr (uses_links, (λ q. cc), unfold check_workshop ◌>>=◌ in rw p)
  | inr p ↦ elim (Bool-cases s.is_open) [
    | inr q ↦ inr (closed, (λ q. cc), unfold check_workshop ◌>>=◌ in rw (p, q))
    | inl q ↦ elim (Bool-cases (code_matches py code s.code)) [
      | inr r ↦ inr (bad_code, (λ q. cc), unfold check_workshop ◌>>=◌ in rw (p, q, r))
      | inl r ↦ inl (p, r, unfold check_workshop ◌>>=◌ in rw (p, q, r))
    ]
  ]
]

refuse_existing-cases :
    (py : Python) (c : Claim) (k : Connection)
    → (x : Error) × (x ≢ integrity) × (refuse_existing py (some c) k ≡ (err x, k))
refuse_existing-cases py c k = elim (Bool-cases (c.source == "open")) [
  | inl p ↦ (has_a_lab, (λ q. cc), unfold refuse_existing ◌>>=◌ in rw p)
  | inr p ↦ (has_a_link, (λ q. cc), unfold refuse_existing ◌>>=◌ in rw p)
]

module _ (py : Python) (draw : Draw py) (code email name pin : String) where
  -- What the body of the transaction comes to: a refusal that wrote nothing, or the INSERT.
  pub claim_body-cases :
      (k : Connection)
      → ((x : Error) × (x ≢ integrity) × (claim_body py draw code email name pin k ≡ (err x, k)))
        ⊎ ((l : Lab) × (((settings k.db).mode == "roster") ≡ false)
            × (code_matches py code (settings k.db).code ≡ true)
            × (find_by claim_email email k.db.claims ≡ none)
            × (first_by_ord (free_labs true k.db) ≡ some l)
            × (claim_body py draw code email name pin k
                ≡ take_lab py draw email name pin (some l) k))
  claim_body-cases k = elim (check_workshop-cases py code (settings k.db) k) [
    | inr (x, n, p) ↦ inl (x, n, unfold claim_body ◌>>=◌ in rw p)
    | inl (m, a, p) ↦ elim (Option-cases (find_by claim_email email k.db.claims)) [
      | inr (c, q) ↦
          let (x, n, r) = refuse_existing-cases py c k in
          inl (x, n, unfold claim_body ◌>>=◌ in rw (p, q, r))
      | inl q ↦ elim (Option-cases (first_by_ord (free_labs true k.db))) [
        | inl r ↦ inl (
          no_free_lab,
          (λ q. cc),
          unfold claim_body ◌>>=◌ refuse_existing take_lab in rw (p, q, r),
        )
        | inr (l, r) ↦ inr (l, m, a, q, r, unfold claim_body ◌>>=◌ refuse_existing in rw (p, q, r))
      ]
    ]
  ]

normalize_email-err :
    (py : Python) (email : String) {x : Error} → normalize_email py email ≡ err x → x ≢ integrity
unfolding normalize_email
normalize_email-err py email h q = ground arith

-- How the calls of `claim_open` end before and after its transaction.
module _ (py : Python) (draw : Draw py) (code email name pin : String) where
  abbrev pub row_for : String → Lab → Claim
  row_for e l = new_claim py draw l.id e (prefix 80 (strip name)) pin

  -- A call refuses, leaving the tables alone, or its INSERT is tried.
  pub claim_open-cases :
      (k : Connection)
      → ((x : Error) × (x ≢ integrity)
          × ((claim_open py draw code email name pin k).0 ≡ err x)
          × ((claim_open py draw code email name pin k).1.db ≡ k.db))
        ⊎ ((e : String) × (l : Lab) × (normalize_email py email ≡ ok e)
            × (((settings k.db).mode == "roster") ≡ false)
            × (code_matches py code (settings k.db).code ≡ true)
            × (find_by claim_email e k.db.claims ≡ none)
            × (first_by_ord (free_labs true k.db) ≡ some l)
            × (claim_open py draw code email name pin k
                ≡ write_tx (take_lab py draw e (prefix 80 (strip name)) pin (some l)) k))
  claim_open-cases k = elim (Outcome-cases (normalize_email py email)) [
    | inr (x, p) ↦ inl (
      x,
      normalize_email-err py email p,
      unfold claim_open ◌>>=◌ in rw p,
      unfold claim_open ◌>>=◌ in rw p,
    )
    | inl (e, p) ↦ elim (Bool-cases (is_empty (prefix 80 (strip name)))) [
      | inl q ↦ inl (
        claim "Enter your name.",
        (λ q. cc),
        unfold claim_open claim_checked ◌>>=◌ in rw (p, q),
        unfold claim_open claim_checked ◌>>=◌ in rw (p, q),
      )
      | inr q ↦ elim (Option-cases (pin_problem py pin)) [
        | inr (m, r) ↦ inl (
          claim m,
          (λ q. cc),
          unfold claim_open claim_checked ◌>>=◌ in rw (p, q, r),
          unfold claim_open claim_checked ◌>>=◌ in rw (p, q, r),
        )
        | inl r ↦
            elim (claim_body-cases py draw code e (prefix 80 (strip name)) pin
              (record k { saved = k.db })) [
                | inl (x, n, t) ↦ inl (
                  x,
                  n,
                  unfold claim_open claim_checked write_tx ◌>>=◌ in rw (p, q, r, t),
                  unfold claim_open claim_checked write_tx ◌>>=◌ in rw (p, q, r, t),
                )
                | inr (l, m, a, f, g, t) ↦ inr (
                  e,
                  l,
                  p,
                  m,
                  a,
                  f,
                  g,
                  unfold claim_open claim_checked write_tx ◌>>=◌ in rw (p, q, r, t),
                )
              ]
      ]
    ]
  ]
