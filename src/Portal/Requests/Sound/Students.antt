-- ===== src/Portal/Requests/Sound/Students.antt =====
-- The invariant of the tables for the settings of the portal, `claim_open` and `recover`.
use rodeo_cli.Base.{ℕ, ℤ, String, Option, none, some, List}
use rodeo_cli.Portal.Python.{Python}
use rodeo_cli.Portal.Db.{Lab, Claim}
use rodeo_cli.Portal.Db.Sound.{IsSound}
use rodeo_cli.Portal.Tx.Keeps.{Keeps, keeps_rules}
use rodeo_cli.Portal.Settings.{
  CodeDraw, Settings, set_code, set_code_if_missing, ensure_defaults, rotate_code,
  rotate_admin_token,
}
use rodeo_cli.Portal.Students.{
  Draw, check_workshop, refuse_existing, take_lab, new_claim, claim_body, claim_checked, claim_open,
  recover_checked, recover,
}
use rodeo_cli.Portal.Requests.Sound.Statements.{statement_rules}
use rodeo_cli.Portal.Requests.Sound.Pins.{recover_body-IsSound}

pub ruleset rules = (keeps_rules, statement_rules)

module _ (py : Python) where
  set_code-IsSound : (draw : CodeDraw) → Keeps IsSound (set_code py draw)
  unfolding set_code
  set_code-IsSound draw = search rules depth 8

  set_code_if_missing-IsSound :
      (draw : CodeDraw) (o : Option String) → Keeps IsSound (set_code_if_missing py draw o)
  unfolding set_code_if_missing
  set_code_if_missing-IsSound draw none = set_code-IsSound draw
  set_code_if_missing-IsSound draw (some _) = search rules

  pub ensure_defaults-IsSound :
      (draw : CodeDraw) (secret mode title : String) (letters : Option ℤ) (url : Option String)
      → Keeps IsSound (ensure_defaults py draw secret mode title letters url)
  unfolding ensure_defaults
  ensure_defaults-IsSound draw secret mode title letters url =
      search (rules, set_code_if_missing-IsSound) depth 14

  pub rotate_code-IsSound : (draw : CodeDraw) → Keeps IsSound (rotate_code py draw)
  unfolding rotate_code
  rotate_code-IsSound draw = search rules depth 8

  pub rotate_admin_token-IsSound : (token : String) → Keeps IsSound (rotate_admin_token py token)
  unfolding rotate_admin_token
  rotate_admin_token-IsSound token = search rules

  refuse_existing-IsSound : (o : Option Claim) → Keeps IsSound (refuse_existing py o)
  unfolding refuse_existing
  refuse_existing-IsSound none = search rules
  refuse_existing-IsSound (some c) = search rules

  check_workshop-IsSound : (code : String) (s : Settings) → Keeps IsSound (check_workshop py code s)
  unfolding check_workshop
  check_workshop-IsSound code s = search rules

  take_lab-IsSound :
      (draw : Draw py) (email name pin : String) (o : Option Lab)
      → Keeps IsSound (take_lab py draw email name pin o)
  unfolding take_lab new_claim
  take_lab-IsSound draw email name pin none = search rules
  take_lab-IsSound draw email name pin (some lab) = search rules

  claim_body-IsSound :
      (draw : Draw py) (code email name pin : String)
      → Keeps IsSound (claim_body py draw code email name pin)
  unfolding claim_body
  claim_body-IsSound draw code email name pin =
      search (rules, check_workshop-IsSound, refuse_existing-IsSound, take_lab-IsSound) depth 10

  claim_checked-IsSound :
      (draw : Draw py) (code email name : String) (problem : Option String) (pin : String)
      → Keeps IsSound (claim_checked py draw code email name problem pin)
  unfolding claim_checked
  claim_checked-IsSound draw code email name none pin = search (rules, claim_body-IsSound)
  claim_checked-IsSound draw code email name (some p) pin = search rules

  pub claim_open-IsSound :
      (draw : Draw py) (code email name pin : String)
      → Keeps IsSound (claim_open py draw code email name pin)
  unfolding claim_open
  claim_open-IsSound draw code email name pin = search (rules, claim_checked-IsSound)

  recover_checked-IsSound :
      (draw : Draw py) (code email pin : String) (o : Option (List ℕ))
      → Keeps IsSound (recover_checked py draw code email pin o)
  unfolding recover_checked
  recover_checked-IsSound draw code email pin none = search rules
  recover_checked-IsSound draw code email pin (some _) = search (rules, recover_body-IsSound)

  pub recover-IsSound :
      (draw : Draw py) (code email pin : String) → Keeps IsSound (recover py draw code email pin)
  unfolding recover
  recover-IsSound draw code email pin = search (rules, recover_checked-IsSound)
