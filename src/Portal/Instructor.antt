-- ===== src/Portal/Instructor.antt =====
-- What the instructor's tools do (rodeo/portal/claims.py): publish labs and progress, look at the
-- board, and move, free or remove labs.
use text.Mathlib.Text.{is_lt}
use Prim.Native.String.{compare}
use rodeo_cli.Base.{
  ℕ, suc, ℤ, pos, String, ◌<>◌, Bool, not, Option, none, some, List, [], ◌∷◌, map, Outcome, ok, err,
  ◌==◌, string_eq, contains, ltb_ℤ, if◌then◌else◌,
}
use rodeo_cli.Base.Lists.{length, keep}
use rodeo_cli.Base.Rows.{has, find_by}
use rodeo_cli.Base.Dict
use rodeo_cli.Base.Dict.{Dict}
use rodeo_cli.Portal.Python.{Python}
use rodeo_cli.Portal.Text.{prefix, is_empty, matches_lab_id}
use rodeo_cli.Portal.Db.{
  Db, Lab, Claim, Error, claim, integrity, lab_key, claim_lab, claim_email, upsert_lab,
  references_hold, set_setting, get_setting,
}
use rodeo_cli.Portal.Tx.{Tx, pure, raise, lift, select, execute, modify, write_tx, ◌>>=◌, ◌>>◌}
use rodeo_cli.Portal.Students.{update_by_email, normalize_email}

-- A published lab record; `data_json` is its lab card as JSON text.
pub record Published : Type 0 where
  pub id : String
  pub ord : Option ℤ
  pub data_json : String
  pub ready : Bool

unfoldable pub lab_of : ℕ → Published → Lab
lab_of i p = record {
  id = p.id;
  ord = elim p.ord [ none ↦ pos i | some n ↦ n ];
  data_json = p.data_json;
  ready = p.ready;
}

-- A stable sort, as ORDER BY makes it: `before a b` if `a` must stand before `b`.
module _ {A : Type 0} (before : A → A → Bool) where
  unfoldable pub insert_sorted : A → List A → List A
  insert_sorted a [] = a ∷ []
  insert_sorted a (b ∷ l) = if before b a then b ∷ insert_sorted a l else a ∷ b ∷ l

  unfoldable pub sort_by : List A → List A
  unfolding insert_sorted
  sort_by [] = []
  sort_by (a ∷ l) = insert_sorted a (sort_by l)

abbrev pub ord_before : Lab → Lab → Bool
ord_before l m = ltb_ℤ l.ord m.ord

abbrev pub text_before : String → String → Bool
text_before s t = is_lt (compare s t)

-- ", ".join(texts)
unfoldable pub join_comma : List String → String
join_comma [] = ""
join_comma (s ∷ []) = s
join_comma (s ∷ t ∷ l) = s <> (", " <> join_comma (t ∷ l))

pub record BoardRow : Type 0 where
  pub lab : String
  pub state : String
  pub name : String
  pub email : String
  pub source : String
  pub claimed_at : String
  pub opened_at : String

unfoldable pub board_row : List Claim → Lab → BoardRow
unfolding find_by
board_row claims l = elim (find_by claim_lab l.id claims) [
  | none ↦ record {
    lab = l.id;
    state = if l.ready then "free" else "building";
    name = "";
    email = "";
    source = "";
    claimed_at = "";
    opened_at = "";
  }
  | some c ↦ record {
    lab = l.id;
    state = if is_empty c.email then (if l.ready then "free" else "building") else "claimed";
    name = c.name;
    email = c.email;
    source = c.source;
    claimed_at = c.claimed_at;
    opened_at = elim c.opened_at [ none ↦ "" | some t ↦ t ];
  }
]

-- FROM labs l LEFT JOIN claims c ON c.lab_id = l.id ORDER BY l.ord
unfoldable pub status_rows : Db → List BoardRow
unfolding board_row sort_by
status_rows db = map (board_row db.claims) (sort_by ord_before db.labs)

unfoldable pub set_progress_rows : Dict String → Db → Db
unfolding Dict.insert
set_progress_rows [] db = db
set_progress_rows ((lab, json) ∷ labs) db =
    set_progress_rows labs (record db { progress = Dict.insert lab json db.progress })

unfoldable pub set_progress : String → Dict String → Tx ℕ
unfolding set_progress_rows
set_progress now labs = do
  write_tx (modify (λ db. set_setting "progress_at" now (set_progress_rows labs db)))
  pure (length labs)

unfoldable pub progress : Db → Dict String × Option String
progress db = (db.progress, get_setting "progress_at" db)

unfoldable pub lab_data : Db → Dict String
lab_data db = map (λ l. (l.id, l.data_json)) (sort_by ord_before db.labs)

-- DELETE FROM claims WHERE p, with whether a row was deleted
unfoldable pub delete_claims : (Claim → Bool) → Db → Db
delete_claims p db = record db { claims = keep (λ c. not (p c)) db.claims }

unfoldable pub release : String → Tx Bool
release lab = write_tx (do
  found ← select (λ db. has claim_lab lab db.claims)
  modify (delete_claims (λ c. lab == c.lab_id))
  pure found)

-- The claims on listed labs, in the order of the labs' ids.
unfoldable pub taken_of : List String → Db → List String
taken_of ids db = sort_by text_before (map claim_lab (keep (λ c. contains ids c.lab_id) db.claims))

unfoldable pub found_of : List String → Db → List String
found_of ids db = map lab_key (sort_by ord_before (keep (λ l. contains ids l.id) db.labs))

unfoldable pub refuse_claimed : List String → Tx (Unit {0})
refuse_claimed [] = pure tt
refuse_claimed (lab ∷ labs) = raise (claim ("claimed by a student: " <> join_comma (lab ∷ labs)))

unfoldable pub erase_all : List String → Dict String → Dict String
unfolding Dict.erase
erase_all [] d = d
erase_all (k ∷ ks) d = erase_all ks (Dict.erase k d)

-- DELETE FROM claims, progress and labs; the last fails if a claim still points at a lab.
unfoldable pub delete_labs : List String → Db → Outcome Error Db
delete_labs ids db =
    let claims = keep (λ (c : Claim). not (contains ids c.lab_id)) db.claims in
    let labs = keep (λ (l : Lab). not (contains ids l.id)) db.labs in
    if references_hold labs claims
    then ok (record db { claims = claims; progress = erase_all ids db.progress; labs = labs })
    else err integrity

unfoldable pub remove_body : List String → Bool → Tx (List String)
remove_body ids force = do
  taken ← select (taken_of ids)
  refuse_claimed (if force then [] else taken)
  found ← select (found_of ids)
  execute (delete_labs ids)
  pure found

unfoldable pub remove_labs : List String → Bool → Tx (List String)
remove_labs [] force = pure []
remove_labs (id ∷ ids) force = write_tx (remove_body (id ∷ ids) force)

module _ (py : Python) where
  unfoldable pub import_rows : ℕ → List Published → Tx (Unit {0})
  import_rows i [] = pure tt
  import_rows i (p ∷ labs) =
      if not (matches_lab_id p.id)
      then raise (claim ("invalid lab id " <> py.repr (prefix 70 p.id)))
      else (do modify (upsert_lab (lab_of i p)); import_rows (suc i) labs)

  unfoldable pub import_labs : List Published → Tx ℕ
  import_labs labs = do write_tx (import_rows 0 labs); pure (length labs)

  unfoldable pub revoke : String → Tx Bool
  revoke email = do
    e ← lift (normalize_email py email)
    write_tx (do
      found ← select (λ db. has claim_email e db.claims)
      modify (delete_claims (λ c. e == c.email))
      pure found)

  -- The lab is there, and nobody else has it.
  unfoldable pub check_move : String → String → Option Lab → Option Claim → Tx (Unit {0})
  check_move email lab none taken = raise (claim ("unknown lab " <> py.repr lab))
  check_move email lab (some _) none = pure tt
  check_move email lab (some _) (some c) =
      if not (c.email == email)
      then raise (claim ("lab " <> (py.repr lab <> " is already assigned")))
      else pure tt

  -- A raise after the UPDATE changes nothing: it is made only if no row was updated.
  unfoldable pub reassign_body : String → String → Tx (Unit {0})
  reassign_body email lab = do
    target ← select (λ db. find_by lab_key lab db.labs)
    taken ← select (λ db. find_by claim_lab lab db.claims)
    check_move email lab target taken
    found ← select (λ db. has claim_email email db.claims)
    execute (update_by_email email (λ c. record c { lab_id = lab }))
    if found then pure tt else raise (claim "no claim for that email")

  unfoldable pub reassign : String → String → Tx (Unit {0})
  reassign email lab = do e ← lift (normalize_email py email); write_tx (reassign_body e lab)

  unfoldable pub unlock : String → Tx (Unit {0})
  unlock email = do
    e ← lift (normalize_email py email)
    write_tx (execute (update_by_email e (λ c. record c { bad_pins = 0 })))
