-- ===== src/Portal/Requests/Sound/Instructor.antt =====
-- The invariant of the tables for links, the roster and the instructor's tools.
use rodeo_cli.Base.{◌≡◌, refl, ℕ, suc, String, Bool, true, false, Option, none, some, List, [], ◌∷◌}
use rodeo_cli.Base.Dict.{Dict}
use rodeo_cli.Portal.Python.{Python}
use rodeo_cli.Portal.Db.{Lab, Claim}
use rodeo_cli.Portal.Db.Sound.{IsSound, within}
use rodeo_cli.Portal.Tx.Keeps.{Keeps, Keeps-bind, Keeps-pure, Keeps-raise, Keeps-if}
use rodeo_cli.Portal.Students.{Draw, LabView, note_opened, lab_for_token}
use rodeo_cli.Portal.Roster.{
  Entry, reserved, invite_existing, reserve, refuse_taken, invite_pinned, invite_new, invite_row,
  invite_entry, invite_rows, invite,
}
use rodeo_cli.Portal.Instructor.{
  Published, import_rows, import_labs, set_progress, release, refuse_claimed, remove_body,
  remove_labs, revoke, check_move, reassign_body, reassign, unlock,
}
use rodeo_cli.Portal.Requests.Sound.Students.{rules}
use rodeo_cli.Portal.Requests.Sound.Statements.{Keeps-upsert_lab}

note_opened-IsSound :
    (now hash : String) (o : Option LabView) → Keeps IsSound (note_opened now hash o)
note_opened-IsSound now hash none = unfold note_opened in search rules
note_opened-IsSound now hash (some v) = go v.opened_at
  where
    go :
        (o : Option String)
        → Keeps IsSound (note_opened now hash (some (record v { opened_at = o })))
    go none = unfold note_opened in search rules
    go (some t) = unfold note_opened in search rules

pub set_progress-IsSound :
    (now : String) (labs : Dict String) → Keeps IsSound (set_progress now labs)
unfolding set_progress
set_progress-IsSound now labs = search rules

pub release-IsSound : (lab : String) → Keeps IsSound (release lab)
unfolding release
release-IsSound lab = search rules depth 8

refuse_claimed-IsSound : (labs : List String) → Keeps IsSound (refuse_claimed labs)
unfolding refuse_claimed
refuse_claimed-IsSound [] = search rules
refuse_claimed-IsSound (lab ∷ labs) = search rules

pub remove_labs-IsSound : (ids : List String) (force : Bool) → Keeps IsSound (remove_labs ids force)
unfolding remove_labs remove_body
remove_labs-IsSound [] force = search rules
remove_labs-IsSound (id ∷ ids) force = search (rules, refuse_claimed-IsSound) depth 10

module _ (py : Python) where
  pub lab_for_token-IsSound : (now token : String) → Keeps IsSound (lab_for_token py now token)
  unfolding lab_for_token
  lab_for_token-IsSound now token = search (rules, note_opened-IsSound) depth 8

  invite_existing-IsSound :
      (rotate : Bool) (draw : Draw py) (email name : String) (c : Claim)
      → Keeps IsSound (invite_existing py rotate draw email name c)
  unfolding invite_existing
  invite_existing-IsSound true draw email name c =
      search (rules, λ (d : Claim) (w : within d ≡ true). w)
  invite_existing-IsSound false draw email name c = search rules

  reserve-IsSound :
      (draw : Draw py) (email name missing : String) (o : Option Lab)
      → Keeps IsSound (reserve py draw email name missing o)
  unfolding reserve reserved
  reserve-IsSound draw email name missing none = search rules
  reserve-IsSound draw email name missing (some lab) = search rules

  refuse_taken-IsSound :
      (pinned : String) (o : Option Claim) → Keeps IsSound (refuse_taken py pinned o)
  unfolding refuse_taken
  refuse_taken-IsSound pinned none = search rules
  refuse_taken-IsSound pinned (some c) = search rules

  invite_pinned-IsSound :
      (draw : Draw py) (email name pinned : String) (o : Option Lab)
      → Keeps IsSound (invite_pinned py draw email name pinned o)
  unfolding invite_pinned
  invite_pinned-IsSound draw email name pinned none = search rules
  invite_pinned-IsSound draw email name pinned (some lab) =
      search (rules, refuse_taken-IsSound, reserve-IsSound)

  invite_new-IsSound :
      (draw : Draw py) (email name pinned : String)
      → Keeps IsSound (invite_new py draw email name pinned)
  unfolding invite_new
  invite_new-IsSound draw email name pinned = search (rules, invite_pinned-IsSound, reserve-IsSound)

  invite_row-IsSound :
      (rotate : Bool) (draw : Draw py) (email name pinned : String) (o : Option Claim)
      → Keeps IsSound (invite_row py rotate draw email name pinned o)
  unfolding invite_row
  invite_row-IsSound rotate draw email name pinned none = invite_new-IsSound draw email name pinned
  invite_row-IsSound rotate draw email name pinned (some c) =
      invite_existing-IsSound rotate draw email name c

  invite_entry-IsSound :
      (rotate : Bool) (draw : Draw py) (entry : Entry)
      → Keeps IsSound (invite_entry py rotate draw entry)
  unfolding invite_entry
  invite_entry-IsSound rotate draw entry = search (rules, invite_row-IsSound)

  invite_rows-IsSound :
      (rotate : Bool) (draws : ℕ → Draw py) (i : ℕ) (roster : List Entry)
      → Keeps IsSound (invite_rows py rotate draws i roster)
  unfolding invite_rows
  invite_rows-IsSound rotate draws i [] = search rules
  invite_rows-IsSound rotate draws i (entry ∷ roster) =
      Keeps-bind _ _ (invite_entry-IsSound rotate (draws i) entry)
        λ out. Keeps-bind _ _ (invite_rows-IsSound rotate draws (suc i) roster) λ rest. Keeps-pure _

  pub invite-IsSound :
      (rotate : Bool) (draws : ℕ → Draw py) (roster : List Entry)
      → Keeps IsSound (invite py rotate draws roster)
  unfolding invite
  invite-IsSound rotate draws roster = search (rules, invite_rows-IsSound)

  import_rows-IsSound : (i : ℕ) (labs : List Published) → Keeps IsSound (import_rows py i labs)
  unfolding import_rows
  import_rows-IsSound i [] = search rules
  import_rows-IsSound i (p ∷ labs) =
      Keeps-if _ _ _ (Keeps-raise _)
        (Keeps-bind _ _ (Keeps-upsert_lab _) (λ _. import_rows-IsSound (suc i) labs))

  pub import_labs-IsSound : (labs : List Published) → Keeps IsSound (import_labs py labs)
  unfolding import_labs
  import_labs-IsSound labs = search (rules, import_rows-IsSound)

  pub revoke-IsSound : (email : String) → Keeps IsSound (revoke py email)
  unfolding revoke
  revoke-IsSound email = search rules depth 8

  check_move-IsSound :
      (email lab : String) (target : Option Lab) (taken : Option Claim)
      → Keeps IsSound (check_move py email lab target taken)
  unfolding check_move
  check_move-IsSound email lab none taken = search rules
  check_move-IsSound email lab (some _) none = search rules
  check_move-IsSound email lab (some _) (some c) = search rules

  reassign_body-IsSound : (email lab : String) → Keeps IsSound (reassign_body py email lab)
  unfolding reassign_body
  reassign_body-IsSound email lab =
      search (rules, check_move-IsSound, λ (d : Claim) (w : within d ≡ true). w) depth 10

  pub reassign-IsSound : (email lab : String) → Keeps IsSound (reassign py email lab)
  unfolding reassign
  reassign-IsSound email lab = search (rules, reassign_body-IsSound)

  unlocked-within : (c : Claim) → within c ≡ true → within (record c { bad_pins = 0 }) ≡ true
  unlocked-within c w = refl

  pub unlock-IsSound : (email : String) → Keeps IsSound (unlock py email)
  unfolding unlock
  unlock-IsSound email = search (rules, unlocked-within) depth 7
