-- ===== src/Portal/Db.antt =====
-- The tables of rodeo/portal/db.py, and what SQLite checks when a statement writes them. The order
-- of rows is that of insertion, and `get_setting` and `set_setting` work on the table `settings`.
pub mod Valid
pub mod Sound
pub mod Insert
use rodeo_cli.Base.{
  ℕ, ℤ, String, Bool, true, false, not, ◌&&◌, Option, none, some, List, [], ◌∷◌, ◌++◌, Outcome, ok,
  ◌==◌, err, ltb_ℤ, if◌then◌else◌, string_eq,
}
use rodeo_cli.Base.Lists.{all, keep}
use rodeo_cli.Base.Rows.{has, find_by, is_unique, update_where}
use rodeo_cli.Base.Dict
use rodeo_cli.Base.Dict.{Dict}

pub record Lab : Type 0 where
  pub id : String
  pub ord : ℤ
  pub data_json : String
  pub ready : Bool

pub record Claim : Type 0 where
  pub lab_id : String
  pub email : String
  pub name : String
  pub source : String
  pub pin_hash : Option String
  pub token_hash : String
  pub claimed_at : String
  pub opened_at : Option String
  pub bad_pins : ℕ

pub record Db : Type 0 where
  pub labs : List Lab
  pub claims : List Claim
  pub settings : Dict String
  pub progress : Dict String

-- ClaimError, GuessError, and what the statements and conversions raise themselves.
pub data Error : Type 0 where
  claim : String → Error
  guess : String → Error
  integrity : Error
  value_error : Error

abbrev pub lab_key : Lab → String
lab_key l = l.id

abbrev pub claim_lab : Claim → String
claim_lab c = c.lab_id

abbrev pub claim_email : Claim → String
claim_email c = c.email

abbrev pub claim_token : Claim → String
claim_token c = c.token_hash

-- lab_id TEXT PRIMARY KEY, email TEXT UNIQUE, token_hash TEXT UNIQUE
unfoldable pub unique_claims : List Claim → Bool
unique_claims rows =
    is_unique claim_lab rows && (is_unique claim_email rows && is_unique claim_token rows)

-- lab_id ... REFERENCES labs(id), under PRAGMA foreign_keys=ON
unfoldable pub references_hold : List Lab → List Claim → Bool
references_hold labs rows = all (λ c. has lab_key c.lab_id labs) rows

unfoldable pub get_setting : String → Db → Option String
unfolding Dict.lookup
get_setting k db = Dict.lookup k db.settings

unfoldable pub set_setting : String → String → Db → Db
unfolding Dict.insert
set_setting k v db = record db { settings = Dict.insert k v db.settings }

-- A statement that writes `claims` fails whole if the rows break a constraint.
unfoldable pub write_claims : List Claim → Db → Outcome Error Db
unfolding unique_claims references_hold
write_claims rows db =
    if unique_claims rows && references_hold db.labs rows
    then ok (record db { claims = rows })
    else err integrity

unfoldable pub insert_claim : Claim → Db → Outcome Error Db
unfolding write_claims
insert_claim c db = write_claims (db.claims ++ c ∷ []) db

-- INSERT INTO labs ... ON CONFLICT(id) DO UPDATE
unfoldable pub upsert_lab : Lab → Db → Db
unfolding update_where has string_eq
upsert_lab l db = record db {
  labs =
      if has lab_key l.id db.labs
      then update_where (λ (m : Lab). l.id == m.id) (λ _. l) db.labs
      else db.labs ++ l ∷ [];
}

-- SELECT id FROM labs WHERE [ready=1 AND] id NOT IN (SELECT lab_id FROM claims)
unfoldable pub free_labs : Bool → Db → List Lab
unfolding has
free_labs only_ready db =
    keep (λ l. (if only_ready then l.ready else true) && not (has claim_lab l.id db.claims)) db.labs

-- ORDER BY ord LIMIT 1. SQLite may answer any of several with the least `ord`; this is the first.
unfoldable pub first_by_ord : List Lab → Option Lab
first_by_ord [] = none
first_by_ord (l ∷ ls) = elim (first_by_ord ls) [
  | none ↦ some l
  | some m ↦ if ltb_ℤ m.ord l.ord then some m else some l
]
