-- ===== src/Portal/Students.antt =====
-- What students do (rodeo/portal/claims.py): claim a lab, get it back, open its link. Also the
-- invitations of a roster, which reserve labs for students.
use rodeo_cli.Base.{
  ℕ, ◌+◌, String, Bool, true, not, ◌||◌, Option, none, some, List, Outcome, ok, err, ◌==◌,
  string_eq, ltb, leb, if◌then◌else◌,
}
use rodeo_cli.Base.Lists.{length}
use rodeo_cli.Base.Rows.{find_by, update_where}
use rodeo_cli.Portal.Python.{Python}
use rodeo_cli.Portal.Text.{codes, strip, prefix, is_empty, matches_email, matches_token}
use rodeo_cli.Portal.Db.{
  Db, Lab, Claim, Error, claim, guess, lab_key, claim_email, claim_token, insert_claim,
  write_claims, free_labs, first_by_ord,
}
use rodeo_cli.Portal.Tx.{Tx, pure, raise, lift, select, execute, commit, write_tx, ◌>>=◌, ◌>>◌}
use rodeo_cli.Portal.Pin.{pin_problem, pin_form, six_digits, hash_pin, check_pin}
use rodeo_cli.Portal.Settings.{Settings, settings, code_matches}

abbrev pub pin_lockout : ℕ
pin_lockout = 5

-- What a call draws: a link token, a salt for the PIN, and the time.
pub record Draw (py : Python) : Type 0 where
  pub token : String
  pub salt : py.Bytes
  pub now : String

abbrev pub uses_links : Error
uses_links = claim "This workshop uses personal lab links. Use the one your instructor sent you."

abbrev pub bad_code : Error
bad_code = guess "That workshop code is not valid."

abbrev pub closed : Error
closed = claim "Claiming is closed. Ask your instructor."

abbrev pub has_a_link : Error
has_a_link = claim "This email has a personal invite link. Use that link."

abbrev pub has_a_lab : Error
has_a_lab = claim "This email already has a lab. Use “Get my lab back” below."

abbrev pub no_match : Error
no_match = guess "No lab matches that email and PIN."

abbrev pub locked : Error
locked = guess "Too many wrong PINs for this email. Ask your instructor."

abbrev pub no_free_lab : Error
no_free_lab = claim "No free labs left. Ask your instructor."

-- UPDATE claims SET ... WHERE email=?
unfoldable pub update_by_email : String → (Claim → Claim) → Db → Outcome Error Db
unfolding write_claims update_where string_eq
update_by_email email f db = write_claims (update_where (λ c. email == c.email) f db.claims) db

module _ (py : Python) where
  unfoldable pub normalize_email : String → Outcome Error String
  normalize_email email =
      let e = py.lower (strip email) in
      if not (matches_email e) || ltb 254 (length (codes e))
      then err (claim "Enter a valid email.")
      else ok e

  -- The tests of the settings that `claim_open` begins its transaction with.
  unfoldable pub check_workshop : String → Settings → Tx (Unit {0})
  check_workshop code s =
      if s.mode == "roster"
      then raise uses_links
      else if not s.is_open
      then raise closed
      else if not (code_matches py code s.code)
      then raise bad_code
      else pure tt

  unfoldable pub refuse_existing : Option Claim → Tx (Unit {0})
  refuse_existing none = pure tt
  refuse_existing (some c) = if not (c.source == "open") then raise has_a_link else raise has_a_lab

  unfoldable pub new_claim : Draw py → String → String → String → String → Claim
  new_claim draw lab email name pin = record {
    lab_id = lab;
    email = email;
    name = name;
    source = "open";
    pin_hash = some (hash_pin py pin draw.salt);
    token_hash = py.sha256 draw.token;
    claimed_at = draw.now;
    opened_at = none;
    bad_pins = 0;
  }

  unfoldable pub take_lab : Draw py → String → String → String → Option Lab → Tx (String × String)
  take_lab draw email name pin none = raise no_free_lab
  take_lab draw email name pin (some lab) = do
    execute (insert_claim (new_claim draw lab.id email name pin))
    pure (draw.token, lab.id)

  unfoldable pub claim_body : Draw py → String → String → String → String → Tx (String × String)
  claim_body draw code email name pin = do
    s ← select settings
    check_workshop code s
    existing ← select (λ db. find_by claim_email email db.claims)
    refuse_existing existing
    lab ← select (λ db. first_by_ord (free_labs true db))
    take_lab draw email name pin lab

  -- The tests of name and PIN, and the transaction.
  unfoldable pub claim_checked :
      Draw py → String → String → String → Option String → String → Tx (String × String)
  claim_checked draw code email name problem pin =
      if is_empty name then raise (claim "Enter your name.") else (elim problem [
        | some message ↦ raise (claim message)
        | none ↦ write_tx (claim_body draw code email name pin)
      ])

  unfoldable pub claim_open : Draw py → String → String → String → String → Tx (String × String)
  claim_open draw code email name pin = do
    e ← lift (normalize_email email)
    claim_checked draw code e (prefix 80 (strip name)) (pin_problem py pin) pin

  abbrev pub miss : Claim → Claim
  miss c = record c { bad_pins = c.bad_pins + 1 }

  abbrev pub renew : Draw py → Claim → Claim
  renew draw c = record c { token_hash = py.sha256 draw.token; bad_pins = 0 }

  -- The claim is there: count the wrong PINs, or give it a new link.
  unfoldable pub recover_claim : Draw py → String → String → Claim → Tx (String × String)
  recover_claim draw email pin c =
      if leb pin_lockout c.bad_pins
      then raise locked
      else if not (check_pin py pin c.pin_hash)
      then (do execute (update_by_email email miss); commit; raise no_match)
      else (do execute (update_by_email email (renew draw)); pure (draw.token, c.lab_id))

  unfoldable pub recover_row : Draw py → String → String → Option Claim → Tx (String × String)
  recover_row draw email pin none = raise no_match
  recover_row draw email pin (some c) =
      if not (c.source == "open") then raise no_match else recover_claim draw email pin c

  unfoldable pub check_code : String → Settings → Tx (Unit {0})
  check_code code s =
      if s.mode == "roster"
      then raise uses_links
      else if not (code_matches py code s.code)
      then raise bad_code
      else pure tt

  unfoldable pub recover_body : Draw py → String → String → String → Tx (String × String)
  recover_body draw code email pin = do
    s ← select settings
    check_code code s
    row ← select (λ db. find_by claim_email email db.claims)
    recover_row draw email pin row

  unfoldable pub recover_checked :
      Draw py → String → String → String → Option (List ℕ) → Tx (String × String)
  recover_checked draw code email pin none = raise (claim pin_form)
  recover_checked draw code email pin (some _) = write_tx (recover_body draw code email pin)

  unfoldable pub recover : Draw py → String → String → String → Tx (String × String)
  recover draw code email pin = do
    e ← lift (normalize_email email)
    recover_checked draw code e pin (six_digits py pin)

-- What a link shows: the columns that `lab_for_token` selects.
pub record LabView : Type 0 where
  pub id : String
  pub data_json : String
  pub ready : Bool
  pub email : String
  pub name : String
  pub opened_at : Option String

abbrev pub view_of : Lab → Claim → LabView
view_of l c = record {
  id = l.id;
  data_json = l.data_json;
  ready = l.ready;
  email = c.email;
  name = c.name;
  opened_at = c.opened_at;
}

-- FROM claims c JOIN labs l ON l.id = c.lab_id WHERE c.token_hash=?
unfoldable pub view_of_token : String → Db → Option LabView
view_of_token hash db = elim (find_by claim_token hash db.claims) [
  | none ↦ none
  | some c ↦ elim (find_by lab_key c.lab_id db.labs) [ none ↦ none | some l ↦ some (view_of l c) ]
]

unfoldable pub mark_opened : String → String → Claim → Claim
mark_opened now hash c = record c {
  opened_at = elim c.opened_at [ none ↦ some now | some t ↦ some t ];
}

unfoldable pub note_opened : String → String → Option LabView → Tx (Unit {0})
unfolding mark_opened update_where
note_opened now hash none = pure tt
note_opened now hash (some v) = elim v.opened_at [
  | some t ↦ pure tt
  | none ↦ execute (λ db.
      write_claims (update_where (λ c. hash == c.token_hash) (mark_opened now hash) db.claims) db)
]

module _ (py : Python) where
  -- Outside a transaction: each statement commits by itself.
  unfoldable pub lab_for_token : String → String → Tx (Option LabView)
  lab_for_token now token = if not (matches_token token) then pure none else (do
    row ← select (view_of_token (py.sha256 token))
    note_opened now (py.sha256 token) row
    pure row)
