-- ===== src/Portal/Requests.antt =====
-- Everything that reaches the portal's tables, as requests, and a run of any requests in any order.
-- SQLite admits one writer at a time, so concurrent requests are such a run.
pub mod Sound
use rodeo_cli.Base.{ℕ, ℤ, String, Bool, Option, List, [], ◌∷◌}
use rodeo_cli.Base.Dict.{Dict}
use rodeo_cli.Portal.Python.{Python}
use rodeo_cli.Portal.Db.{Db}
use rodeo_cli.Portal.Tx.{Connection, Tx, pure, ◌>>=◌, ◌>>◌}
use rodeo_cli.Portal.Settings
use rodeo_cli.Portal.Settings.{CodeDraw}
use rodeo_cli.Portal.Students
use rodeo_cli.Portal.Students.{Draw}
use rodeo_cli.Portal.Roster
use rodeo_cli.Portal.Roster.{Entry}
use rodeo_cli.Portal.Instructor
use rodeo_cli.Portal.Instructor.{Published}

module _ (py : Python) where
  pub data Request : Type 0 where
    ensure_defaults : CodeDraw → String → String → String → Option ℤ → Option String → Request
    rotate_code : CodeDraw → Request
    rotate_admin_token : String → Request
    claim_open : Draw py → String → String → String → String → Request
    recover : Draw py → String → String → String → Request
    invite : Bool → (ℕ → Draw py) → List Entry → Request
    lab_for_token : String → String → Request
    import_labs : List Published → Request
    set_progress : String → Dict String → Request
    release : String → Request
    remove_labs : List String → Bool → Request
    revoke : String → Request
    reassign : String → String → Request
    unlock : String → Request

module _ (py : Python) where
  discard : {A : Type 0} → Tx A → Tx (Unit {0})
  discard m = m >> pure tt

  pub handle : Request py → Tx (Unit {0})
  unfolding discard
  handle (ensure_defaults draw secret mode title letters url) =
      Settings.ensure_defaults py draw secret mode title letters url
  handle (rotate_code draw) = discard (Settings.rotate_code py draw)
  handle (rotate_admin_token token) = discard (Settings.rotate_admin_token py token)
  handle (claim_open draw code email name pin) =
      discard (Students.claim_open py draw code email name pin)
  handle (recover draw code email pin) = discard (Students.recover py draw code email pin)
  handle (invite rotate draws roster) = discard (Roster.invite py rotate draws roster)
  handle (lab_for_token now token) = discard (Students.lab_for_token py now token)
  handle (import_labs labs) = discard (Instructor.import_labs py labs)
  handle (set_progress now labs) = discard (Instructor.set_progress now labs)
  handle (release lab) = discard (Instructor.release lab)
  handle (remove_labs ids force) = discard (Instructor.remove_labs ids force)
  handle (revoke email) = discard (Instructor.revoke py email)
  handle (reassign email lab) = Instructor.reassign py email lab
  handle (unlock email) = Instructor.unlock py email

  -- A request that raises ends alone: the next one finds the tables as it left them.
  pub serve : Connection → List (Request py) → Connection
  serve c [] = c
  serve c (r ∷ rs) = serve (handle r c).1 rs
