-- ===== src/Portal/Requests/Sound.antt =====
-- The invariant of the tables under requests (rodeo/portal/claims.py).
mod Statements
mod Pins
mod Students
mod Instructor
use rodeo_cli.Base.{◌≡◌, refl, String, Bool, Option, List, [], ◌∷◌}
use rodeo_cli.Portal.Python.{Python}
use rodeo_cli.Portal.Db.{Db}
use rodeo_cli.Portal.Db.Sound.{IsSound}
use rodeo_cli.Portal.Tx.{Connection, Tx}
use rodeo_cli.Portal.Tx.Keeps.{Keeps}
use rodeo_cli.Portal.Requests.{
  Request, ensure_defaults, rotate_code, rotate_admin_token, claim_open, recover, invite,
  lab_for_token, import_labs, set_progress, release, remove_labs, revoke, reassign, unlock, discard,
  handle, serve,
}
use Students.{
  rules, ensure_defaults-IsSound, rotate_code-IsSound, rotate_admin_token-IsSound,
  claim_open-IsSound, recover-IsSound,
}
use Instructor.{
  lab_for_token-IsSound, invite-IsSound, import_labs-IsSound, set_progress-IsSound, release-IsSound,
  remove_labs-IsSound, revoke-IsSound, reassign-IsSound, unlock-IsSound,
}

module _ (py : Python) where
  discard-IsSound : {A : Type 0} (m : Tx A) → Keeps IsSound m → Keeps IsSound (discard py m)
  unfolding discard
  discard-IsSound m k = search rules

  pub handle-IsSound : (r : Request py) → Keeps IsSound (handle py r)
  unfolding handle
  handle-IsSound (ensure_defaults draw secret mode title letters url) =
      ensure_defaults-IsSound py draw secret mode title letters url
  handle-IsSound (rotate_code draw) = discard-IsSound _ (rotate_code-IsSound py draw)
  handle-IsSound (rotate_admin_token token) =
      discard-IsSound _ (rotate_admin_token-IsSound py token)
  handle-IsSound (claim_open draw code email name pin) =
      discard-IsSound _ (claim_open-IsSound py draw code email name pin)
  handle-IsSound (recover draw code email pin) =
      discard-IsSound _ (recover-IsSound py draw code email pin)
  handle-IsSound (invite rotate draws roster) =
      discard-IsSound _ (invite-IsSound py rotate draws roster)
  handle-IsSound (lab_for_token now token) = discard-IsSound _ (lab_for_token-IsSound py now token)
  handle-IsSound (import_labs labs) = discard-IsSound _ (import_labs-IsSound py labs)
  handle-IsSound (set_progress now labs) = discard-IsSound _ (set_progress-IsSound now labs)
  handle-IsSound (release lab) = discard-IsSound _ (release-IsSound lab)
  handle-IsSound (remove_labs ids force) = discard-IsSound _ (remove_labs-IsSound ids force)
  handle-IsSound (revoke email) = discard-IsSound _ (revoke-IsSound py email)
  handle-IsSound (reassign email lab) = reassign-IsSound py email lab
  handle-IsSound (unlock email) = unlock-IsSound py email

  serve_keeps :
      (c : Connection) (rs : List (Request py))
      → IsSound c.db
      → IsSound c.saved
      → IsSound (serve py c rs).db × IsSound (serve py c rs).saved
  unfolding serve
  serve_keeps c [] s t = (s, t)
  serve_keeps c (r ∷ rs) s t =
      let (s', t') = (handle-IsSound r).at c s t in serve_keeps (handle py r c).1 rs s' t'

  -- From sound tables, whatever the requests, in any order and failing or not: each lab has one
  -- claim at most, each email and each link one, each claim is on a lab that exists, and no counter
  -- of wrong PINs passes 5.
  pub serve-IsSound :
      (db : Db) (rs : List (Request py))
      → IsSound db
      → IsSound (serve py (record { db = db; saved = db }) rs).db
  serve-IsSound db rs s = (serve_keeps (record { db = db; saved = db }) rs s s).0
