-- ===== src/Portal/Roster.antt =====
-- `invite` of rodeo/portal/claims.py: a lab for each row of the roster, in one transaction.
use rodeo_cli.Base.{
  ℕ, suc, String, ◌<>◌, Bool, true, false, Option, none, some, List, [], ◌∷◌, if◌then◌else◌,
}
use rodeo_cli.Base.Rows.{find_by}
use rodeo_cli.Portal.Python.{Python}
use rodeo_cli.Portal.Text.{strip, prefix, is_empty}
use rodeo_cli.Portal.Db.{
  Lab, Claim, claim, lab_key, claim_lab, claim_email, insert_claim, free_labs, first_by_ord,
}
use rodeo_cli.Portal.Tx.{Tx, pure, raise, lift, select, execute, write_tx, ◌>>=◌, ◌>>◌}
use rodeo_cli.Portal.Students.{Draw, update_by_email, normalize_email}

-- A row of the roster; a field that is missing is the empty text.
pub record Entry : Type 0 where
  pub email : String
  pub name : String
  pub host_id : String

pub record Invite : Type 0 where
  pub email : String
  pub name : String
  pub lab : String
  pub token : Option String
  pub status : String

module _ (py : Python) where
  unfoldable pub reserved : Draw py → String → String → String → Claim
  reserved draw lab email name = record {
    lab_id = lab;
    email = email;
    name = name;
    source = "roster";
    pin_hash = none;
    token_hash = py.sha256 draw.token;
    claimed_at = draw.now;
    opened_at = none;
    bad_pins = 0;
  }

  abbrev pub relink : Draw py → Claim → Claim
  relink draw c = record c { token_hash = py.sha256 draw.token }

  -- The row has a claim already: keep its lab.
  unfoldable pub invite_existing : Bool → Draw py → String → String → Claim → Tx Invite
  invite_existing true draw email name c = do
    execute (update_by_email email (relink draw))
    pure (record {
      email = email;
      name = name;
      lab = c.lab_id;
      token = some draw.token;
      status = "rotated";
    })
  invite_existing false draw email name c =
      pure
        (record { email = email; name = name; lab = c.lab_id; token = none; status = "existing" })

  unfoldable pub reserve : Draw py → String → String → String → Option Lab → Tx Invite
  reserve draw email name missing none = raise (claim missing)
  reserve draw email name missing (some lab) = do
    execute (insert_claim (reserved draw lab.id email name))
    pure (record {
      email = email;
      name = name;
      lab = lab.id;
      token = some draw.token;
      status = "invited";
    })

  unfoldable pub refuse_taken : String → Option Claim → Tx (Unit {0})
  refuse_taken pinned none = pure tt
  refuse_taken pinned (some _) =
      raise (claim ("lab " <> (py.repr pinned <> " is already assigned")))

  -- The lab that the row pins.
  unfoldable pub invite_pinned : Draw py → String → String → String → Option Lab → Tx Invite
  invite_pinned draw email name pinned none =
      raise (claim ("roster pins unknown lab " <> py.repr pinned))
  invite_pinned draw email name pinned (some lab) = do
    taken ← select (λ db. find_by claim_lab pinned db.claims)
    refuse_taken pinned taken
    reserve draw email name "" (some lab)

  unfoldable pub invite_new : Draw py → String → String → String → Tx Invite
  invite_new draw email name pinned =
      if is_empty pinned
      then (do
        lab ← select (λ db. first_by_ord (free_labs false db))
        reserve draw email name ("no free lab left for " <> email) lab)
      else (do
        lab ← select (λ db. find_by lab_key pinned db.labs)
        invite_pinned draw email name pinned lab)

  unfoldable pub invite_row : Bool → Draw py → String → String → String → Option Claim → Tx Invite
  invite_row rotate draw email name pinned (some c) = invite_existing rotate draw email name c
  invite_row rotate draw email name pinned none = invite_new draw email name pinned

  unfoldable pub invite_entry : Bool → Draw py → Entry → Tx Invite
  invite_entry rotate draw entry = do
    email ← lift (normalize_email py entry.email)
    row ← select (λ db. find_by claim_email email db.claims)
    invite_row rotate draw email (prefix 80 (strip entry.name)) (strip entry.host_id) row

  -- The loop, with what row `i` draws.
  unfoldable pub invite_rows : Bool → (ℕ → Draw py) → ℕ → List Entry → Tx (List Invite)
  invite_rows rotate draws i [] = pure []
  invite_rows rotate draws i (entry ∷ roster) = do
    out ← invite_entry rotate (draws i) entry
    rest ← invite_rows rotate draws (suc i) roster
    pure (out ∷ rest)

  unfoldable pub invite : Bool → (ℕ → Draw py) → List Entry → Tx (List Invite)
  invite rotate draws roster = write_tx (invite_rows rotate draws 0 roster)
