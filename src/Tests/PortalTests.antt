-- ===== src/Tests/PortalTests.antt =====
-- The portal (rodeo/portal/claims.py) on two labs, one of them claimed.
use Prim.Native.Char.{Char, code}
use rodeo_cli.Base.{
  ◌+◌, ◌≡◌, ◌≢◌, refl, ℕ, pos, ◌-◌, ◌<◌, ◌==◌, contains, String, ◌<>◌, true, false, ◌&&◌, Option,
  none, some, List, [], ◌∷◌, ok, err, inl, string_eq, nat_eq, leb, if◌then◌else◌, arith,
}
use rodeo_cli.Base.Lists.{any, all}
use rodeo_cli.Base.Rows.{has, find_by, is_unique, update_where}
use rodeo_cli.Portal.Python.{Python}
use rodeo_cli.Portal.Text.{strip, prefix, is_empty, matches_email, keep_code, codes, matches_lab_id}
use rodeo_cli.Portal.Db.{
  Db, Lab, Claim, claim, integrity, lab_key, claim_lab, claim_email, unique_claims, references_hold,
  insert_claim, free_labs, first_by_ord,
}
use rodeo_cli.Portal.Db.Valid.{IsValid}
use rodeo_cli.Portal.Db.Sound.{IsSound}
use rodeo_cli.Portal.Tx.{Connection, write_tx, ◌>>=◌}
use rodeo_cli.Portal.Pin.{
  pin_problem, six_digits, check_pin, split_colon, decimals, is_simple, is_repeated, distinct,
  steps,
}
use rodeo_cli.Portal.Settings.{settings, code_matches}
use rodeo_cli.Portal.Students.{
  Draw, LabView, normalize_email, no_match, locked, new_claim, take_lab, claim_body, claim_checked,
  claim_open, check_workshop, refuse_existing, recover, view_of, view_of_token,
}
use rodeo_cli.Portal.Instructor.{Published, reassign, import_labs, remove_labs}
use rodeo_cli.Portal.Requests
use rodeo_cli.Portal.Requests.{Request, serve}
use rodeo_cli.Portal.Requests.Sound.{serve-IsSound}
use rodeo_cli.Portal.Assignment.{
  IsAssigned, claim_open-IsAssigned, claim_open-view_of_token, claim_open-ne-integrity,
  claim_open-rollback,
}
use rodeo_cli.Portal.Recovery.{IsAsked, recover_right, recover_wrong}
use rodeo_cli.Portal.Lockout.{Guess, attempts, attempts-locked}
use rodeo_cli.Portal.Return.{IsHex, has_no_colon, claim_open-recover}
use rodeo_cli.Portal.Moves.{to_lab, reassign_moves}
use rodeo_cli.Portal.Removal.{IsFound, IsRemoved, remove_labs-IsRemoved}
use rodeo_cli.Portal.Publishing.{last_published, or_else, import_labs-upserts}
use rodeo_cli.Portal.PinRules.{IsHard, pin_problem-IsHard}

unfoldable pub ascii_digit : Char → Option ℕ
ascii_digit c = if leb 48 (code c) && leb (code c) 57 then some (code c - 48) else none

abbrev pub py : Python
py = record {
  lower = λ s. s;
  upper = λ s. s;
  decimal = ascii_digit;
  int = λ s. none;
  str = λ n. "0";
  repr = λ s. "'" <> (s <> "'");
  sha256 = λ s. "#" <> s;
  hmac = λ k m. k <> m;
  Bytes = Unit;
  hex = λ b. "5a17";
  from_hex = λ s. tt;
  scrypt = λ pin salt. "x" <> pin;
}

abbrev lab : String → ℕ → Lab
lab id ord = record { id = id; ord = pos ord; data_json = "{}"; ready = true }

abbrev ada : Claim
ada = record {
  lab_id = "lab1";
  email = "ada@x.org";
  name = "Ada";
  source = "open";
  pin_hash = some "5a17:x428193";
  token_hash = "#t0";
  claimed_at = "9:00";
  opened_at = none;
  bad_pins = 3;
}

abbrev pub tables : Db
tables = record {
  labs = lab "lab1" 0 ∷ lab "lab2" 1 ∷ [];
  claims = ada ∷ [];
  settings = ("code", "RODEO-KEY-1") ∷ ("open", "1") ∷ ("mode", "both") ∷ [];
  progress = ("lab1", "{}") ∷ [];
}

abbrev full : Db
full = record tables { claims = record ada { bad_pins = 5 } ∷ [] }

abbrev pub at : Db → Connection
at db = record { db = db; saved = db }

abbrev pub draw : String → Draw py
draw token = record { token = token; salt = tt; now = "9:30" }

abbrev pin : String
pin = "428193"

abbrev digits : List ℕ
digits = 4 ∷ 2 ∷ 8 ∷ 1 ∷ 9 ∷ 3 ∷ []

tables-IsValid : IsValid tables
unfolding is_unique has unique_claims references_hold string_eq
tables-IsValid = record { labs_unique = refl; claims_unique = refl; references = refl }

full-IsValid : IsValid full
unfolding is_unique has unique_claims references_hold string_eq
full-IsValid = record { labs_unique = refl; claims_unique = refl; references = refl }

tables-IsSound : IsSound tables
tables-IsSound = record { valid = tables-IsValid; pins = refl }

six : six_digits py pin ≡ some digits
unfolding six_digits decimals ascii_digit nat_eq
six = refl

abbrev pub code_typed : String
code_typed = "RODEO KEY 1"

bob_claims :
    (claim_open py (draw "t1") code_typed "bob@x.org" " Bob " pin (at tables)).0 ≡ ok ("t1", "lab2")
unfolding claim_open claim_checked claim_body write_tx ◌>>=◌ normalize_email check_workshop settings
    code_matches string_eq nat_eq strip prefix is_empty matches_email pin_problem six_digits
    decimals is_simple is_repeated distinct steps codes ascii_digit find_by refuse_existing
    free_labs first_by_ord take_lab insert_claim new_claim has is_unique references_hold
    unique_claims keep_code
bob_claims = refl

ada_claims_again :
    (claim_open py (draw "t1") code_typed "ada@x.org" "Ada" pin (at tables)).0
    ≡ err (claim "This email already has a lab. Use “Get my lab back” below.")
unfolding claim_open claim_checked claim_body write_tx ◌>>=◌ normalize_email check_workshop settings
    code_matches string_eq nat_eq strip prefix is_empty matches_email pin_problem six_digits
    decimals is_simple is_repeated distinct steps codes ascii_digit find_by refuse_existing
    free_labs first_by_ord take_lab insert_claim new_claim has is_unique references_hold
    unique_claims keep_code
ada_claims_again = refl

ada_asks : IsAsked py code_typed "ada@x.org" tables "ada@x.org" ada
unfolding normalize_email matches_email strip codes settings code_matches keep_code is_empty
    string_eq nat_eq find_by
ada_asks = record {
  normal = refl;
  not_roster = refl;
  code_right = refl;
  found = refl;
  is_open = refl;
}

full_asks : IsAsked py code_typed "ada@x.org" full "ada@x.org" (record ada { bad_pins = 5 })
unfolding normalize_email matches_email strip codes settings code_matches keep_code is_empty
    string_eq nat_eq find_by
full_asks = record {
  normal = refl;
  not_roster = refl;
  code_right = refl;
  found = refl;
  is_open = refl;
}

wrong_pin : check_pin py "739104" (some "5a17:x428193") ≡ false
unfolding check_pin split_colon string_eq nat_eq
wrong_pin = refl

right_pin : check_pin py pin (some "5a17:x428193") ≡ true
unfolding check_pin split_colon string_eq nat_eq
right_pin = refl

wrong_six : six_digits py "739104" ≡ some (7 ∷ 3 ∷ 9 ∷ 1 ∷ 0 ∷ 4 ∷ [])
unfolding six_digits decimals ascii_digit nat_eq
wrong_six = refl

new_token : (t : String) → has (λ (c : Claim). c.token_hash) "#t1" tables.claims ≡ false
unfolding has string_eq
new_token t = refl

day : List (Request py)
day =
    Requests.claim_open (draw "t1") code_typed "bob@x.org" "Bob" pin
    ∷ Requests.recover (draw "t2") code_typed "ada@x.org" "739104"
    ∷ Requests.remove_labs ("lab1" ∷ []) true
    ∷ []

serve-IsSound_example : IsSound (serve py (at tables) day).db
serve-IsSound_example = serve-IsSound py tables day tables-IsSound

claim_open-IsAssigned_example :
    IsAssigned py
      (draw "t1")
      code_typed
      "bob@x.org"
      " Bob "
      pin
      (at tables)
      ("t1", "lab2")
      (claim_open py (draw "t1") code_typed "bob@x.org" " Bob " pin (at tables)).1.db
claim_open-IsAssigned_example =
    claim_open-IsAssigned py (draw "t1") code_typed "bob@x.org" " Bob " pin (at tables)
      ("t1", "lab2") bob_claims

claim_open-view_of_token_example :
    (v : LabView) × (view_of_token "#t1"
        (claim_open py (draw "t1") code_typed "bob@x.org" " Bob " pin (at tables)).1.db
      ≡ some v)
    × (v.id ≡ "lab2")
    × (normalize_email py "bob@x.org" ≡ ok v.email)
    × (v.name ≡ prefix 80 (strip " Bob "))
claim_open-view_of_token_example =
    claim_open-view_of_token py (draw "t1") code_typed "bob@x.org" " Bob " pin (at tables)
      ("t1", "lab2") tables-IsValid bob_claims

claim_open-ne-integrity_example :
    (claim_open py (draw "t1") code_typed "bob@x.org" " Bob " pin (at tables)).0 ≢ err integrity
claim_open-ne-integrity_example =
    claim_open-ne-integrity py (draw "t1") code_typed "bob@x.org" " Bob " pin (at tables)
      tables-IsValid (new_token "")

claim_open-rollback_example :
    (claim_open py (draw "t1") code_typed "ada@x.org" "Ada" pin (at tables)).1.db ≡ tables
claim_open-rollback_example =
    claim_open-rollback py (draw "t1") code_typed "ada@x.org" "Ada" pin (at tables)
      (claim "This email already has a lab. Use “Get my lab back” below.") ada_claims_again

recover_right_example :
    ((recover py (draw "t1") code_typed "ada@x.org" pin (at tables)).0 ≡ ok ("t1", "lab1"))
    × ((recover py (draw "t1") code_typed "ada@x.org" pin (at tables)).1.db ≡ record tables {
      claims =
          update_where
            (λ d. "ada@x.org" == d.email)
            (λ d. record d { token_hash = "#t1"; bad_pins = 0 })
            tables.claims;
    })
    × (find_by claim_email "ada@x.org"
          (recover py (draw "t1") code_typed "ada@x.org" pin (at tables)).1.db.claims
        ≡ some (record ada { token_hash = "#t1"; bad_pins = 0 }))
recover_right_example =
    recover_right py code_typed "ada@x.org" (draw "t1") pin digits six (at tables) "ada@x.org" ada
      ada_asks tables-IsValid (new_token "") refl right_pin

recover_wrong_example :
    ((recover py (draw "t1") code_typed "ada@x.org" "739104" (at tables)).0 ≡ err no_match)
    × ((recover py (draw "t1") code_typed "ada@x.org" "739104" (at tables)).1.db ≡ record tables {
      claims =
          update_where
            (λ d. "ada@x.org" == d.email)
            (λ d. record d { bad_pins = d.bad_pins + 1 })
            tables.claims;
    })
    × (find_by claim_email "ada@x.org"
          (recover py (draw "t1") code_typed "ada@x.org" "739104" (at tables)).1.db.claims
        ≡ some (record ada { bad_pins = 4 }))
recover_wrong_example =
    recover_wrong py code_typed "ada@x.org" (draw "t1") "739104" (7 ∷ 3 ∷ 9 ∷ 1 ∷ 0 ∷ 4 ∷ [])
      wrong_six (at tables) "ada@x.org" ada ada_asks tables-IsValid refl wrong_pin

abbrev guess_of : String → Guess py
guess_of p = record { draw = draw "t1"; pin = p }

abbrev two_guesses : List (Guess py)
two_guesses = guess_of "739104" ∷ guess_of "739104" ∷ []

attempts-locked_example :
    (recover py
      (draw "t1")
      code_typed
      "ada@x.org"
      pin
      (attempts py code_typed "ada@x.org" (at tables) two_guesses)).0
    ≡ err locked
attempts-locked_example =
    attempts-locked py code_typed "ada@x.org" (at tables) "ada@x.org" ada two_guesses (guess_of pin)
      digits ada_asks tables-IsValid (omega arith)
      (
        ((7 ∷ 3 ∷ 9 ∷ 1 ∷ 0 ∷ 4 ∷ []), wrong_six, wrong_pin),
        (((7 ∷ 3 ∷ 9 ∷ 1 ∷ 0 ∷ 4 ∷ []), wrong_six, wrong_pin), tt),
      )
      (omega arith) six

py-IsHex : IsHex py
unfolding has_no_colon nat_eq
py-IsHex = record { round_trip = λ b. refl; no_colon = λ b. refl }

second_token :
    has
      (λ (c : Claim). c.token_hash)
      "#t2"
      (claim_open py (draw "t1") code_typed "bob@x.org" " Bob " pin (at tables)).1.db.claims
    ≡ false
unfolding claim_open claim_checked claim_body write_tx ◌>>=◌ normalize_email check_workshop settings
    code_matches string_eq nat_eq strip prefix is_empty matches_email pin_problem six_digits
    decimals is_simple is_repeated distinct steps codes ascii_digit find_by refuse_existing
    free_labs first_by_ord take_lab insert_claim new_claim has is_unique references_hold
    unique_claims keep_code
second_token = refl

claim_open-recover_example :
    (recover py
      (draw "t2")
      code_typed
      "bob@x.org"
      pin
      (claim_open py (draw "t1") code_typed "bob@x.org" " Bob " pin (at tables)).1).0
    ≡ ok ("t2", "lab2")
claim_open-recover_example =
    claim_open-recover py py-IsHex (draw "t1") (draw "t2") code_typed "bob@x.org" " Bob " pin digits
      (at tables) ("t1", "lab2") six tables-IsValid bob_claims second_token

normal_ada : normalize_email py "ada@x.org" ≡ ok "ada@x.org"
unfolding normalize_email matches_email strip codes nat_eq
normal_ada = refl

normal_bob : normalize_email py "bob@x.org" ≡ ok "bob@x.org"
unfolding normalize_email matches_email strip codes nat_eq
normal_bob = refl

lab2_listed : find_by lab_key "lab2" tables.labs ≡ some (lab "lab2" 1)
unfolding find_by string_eq
lab2_listed = refl

lab2_free : has claim_lab "lab2" tables.claims ≡ false
unfolding has string_eq
lab2_free = refl

ada_found : find_by claim_email "ada@x.org" tables.claims ≡ some ada
unfolding find_by string_eq
ada_found = refl

reassign_moves_example :
    ((reassign py "ada@x.org" "lab2" (at tables)).0 ≡ ok tt)
    × ((reassign py "ada@x.org" "lab2" (at tables)).1.db ≡ record tables {
      claims =
          update_where (λ d. "ada@x.org" == d.email) (to_lab py "ada@x.org" "lab2") tables.claims;
    })
    × (view_of_token "#t0" (reassign py "ada@x.org" "lab2" (at tables)).1.db
        ≡ some (view_of (lab "lab2" 1) (to_lab py "ada@x.org" "lab2" ada)))
reassign_moves_example =
    reassign_moves py "ada@x.org" "lab2" (at tables) "ada@x.org" normal_ada (lab "lab2" 1)
      lab2_listed ada tables-IsValid lab2_free ada_found

lab1_listed : find_by lab_key "lab1" tables.labs ≡ some (lab "lab1" 0)
unfolding find_by string_eq
lab1_listed = refl

lab1_taken : find_by claim_lab "lab1" tables.claims ≡ some ada
unfolding find_by string_eq
lab1_taken = refl

other_email : ◌==◌ {A = String} "ada@x.org" "bob@x.org" ≡ false
unfolding string_eq
other_email = refl

remove_labs-IsRemoved_example :
    (ids : List String) × ((remove_labs ("lab1" ∷ "gone" ∷ []) true (at tables)).0 ≡ ok ids)
    × IsFound ("lab1" ∷ "gone" ∷ []) tables ids
    × IsRemoved
        ("lab1" ∷ "gone" ∷ [])
        tables
        (remove_labs ("lab1" ∷ "gone" ∷ []) true (at tables)).1.db
remove_labs-IsRemoved_example =
    remove_labs-IsRemoved "lab1" ("gone" ∷ []) (at tables) true tables-IsValid (inl refl)

lab1_claimed : any (λ c. contains ("lab1" ∷ "gone" ∷ []) (claim_lab c)) tables.claims ≡ true
unfolding string_eq
lab1_claimed = refl

abbrev records : List Published
records =
    record { id = "lab2"; ord = none; data_json = "new"; ready = false }
    ∷ record { id = "lab3"; ord = some (pos 7); data_json = "{}"; ready = true }
    ∷ []

good_ids : all (λ p. matches_lab_id p.id) records ≡ true
unfolding matches_lab_id codes nat_eq
good_ids = refl

import_labs-upserts_example :
    let once = (import_labs py records (at tables)).1 in
    ((import_labs py records (at tables)).0 ≡ ok 2)
    × ((j : String)
        → find_by lab_key j once.db.labs
          ≡ or_else (last_published 0 records j) (find_by lab_key j tables.labs))
    × (once.db.claims ≡ tables.claims)
    × ((j : String)
        → find_by lab_key j (import_labs py records once).1.db.labs
          ≡ find_by lab_key j once.db.labs)
import_labs-upserts_example = import_labs-upserts py records (at tables) good_ids

ascii_digit-below : (c : Char) (d : ℕ) → ascii_digit c ≡ some d → d < 10
unfolding ascii_digit
ascii_digit-below c d h = ground arith

pin_fine : pin_problem py pin ≡ none
unfolding pin_problem six_digits decimals is_simple is_repeated distinct steps codes ascii_digit
    nat_eq string_eq
pin_fine = refl

pin_problem-IsHard_example : IsHard py (record { below_ten = ascii_digit-below }) pin
pin_problem-IsHard_example =
    pin_problem-IsHard py (record { below_ten = ascii_digit-below }) pin pin_fine
