-- ===== src/Web/Server.antt =====
-- The handlers of rodeo/portal/web.py that count failures: do_POST, and do_GET for the links of
-- students and of the instructor. A page is known by which one it is.
use rodeo_cli.Base.{
  ℕ, ℤ, pos, negsuc, String, Bool, true, false, not, ◌&&◌, Option, none, some, List, [], ◌∷◌,
  Outcome, ok, err, ◌==◌, string_eq, contains, if◌then◌else◌, leb,
}
use rodeo_cli.Base.Dict
use rodeo_cli.Base.Dict.{Dict}
use rodeo_cli.Portal.Python.{Python}
use rodeo_cli.Portal.Text.{is_empty, strip, prefix}
use rodeo_cli.Portal.Db.{Error, claim, guess}
use rodeo_cli.Portal.Tx.{Connection, Tx}
use rodeo_cli.Portal.Settings.{
  CompareError, settings, or_default, code_matches, access_token, has_access, is_admin_token,
  is_ascii,
}
use rodeo_cli.Portal.Students.{Draw, LabView, claim_open, recover, lab_for_token}
use rodeo_cli.Web.Limiter.{Limiter, over, count, fail}

abbrev pub rate_limit : ℕ
rate_limit = 30

abbrev pub rate_window : ℕ
rate_window = 600

abbrev pub code_fail_limit_all : ℕ
code_fail_limit_all = 200

abbrev pub code_fails_while_capped : ℕ
code_fails_while_capped = 3

abbrev pub post_paths : List String
post_paths = "/enter" ∷ "/claim" ∷ "/recover" ∷ "/forget" ∷ []

-- The database and the counters of failures.
pub record Server : Type 0 where
  pub con : Connection
  pub limiter : Limiter
  pub code_limiter : Limiter

-- The readings of the clock, in the order in which a handler takes them.
pub record Clock : Type 0 where
  pub start : ℕ
  pub codes : ℕ
  pub counted : ℕ
  pub failed : ℕ
  pub code_failed : ℕ

pub data Answer : Type 0 where
  not_found : Answer
  too_large : Answer
  expired : Answer
  forgotten : Answer
  slow_down : Answer
  codes_paused : Answer
  wrong_code : Answer
  entered : String → Answer
  front : Answer
  refused : String → Answer
  lab_link : String → Answer
  lab_page : LabView → Answer
  admin_page : Answer
  crashed : Answer

unfoldable pub fail_address : String → Clock → Server → Server
fail_address ip clock s = record s { limiter = fail s.limiter ip clock.failed }

unfoldable pub fail_code : String → Clock → Server → Server
unfolding fail_address
fail_code ip clock s = record (fail_address ip clock s) {
  code_limiter = fail s.code_limiter "*" clock.code_failed;
}

-- int(Content-Length), none if it is no int: no more than MAX_BODY, and not negative.
unfoldable pub fits : Option ℤ → Bool
fits none = false
fits (some (pos n)) = leb n 4096
fits (some (negsuc n)) = false

unfoldable pub form_value : String → Dict String → String
unfolding or_default
form_value key form = or_default "" (Dict.lookup key form)

module _ (py : Python) where
  pub record Post : Type 0 where
    pub path : String
    pub length : Option ℤ
    pub form : Dict String
    pub csrf : String
    pub access : String
    pub draw : Draw py

  -- A request with the address that it comes from.
  pub data Visit : Type 0 where
    post : Post → Visit
    link : String → String → Visit
    admin : String → Visit

module _ (py : Python) (ip : String) (clock : Clock) where
  unfoldable pub enter : String → Server → Answer × Server
  unfolding fail_code
  enter code s =
      if over s.code_limiter "*" clock.codes
        && leb code_fails_while_capped (count s.limiter ip clock.counted)
      then (codes_paused, s)
      else if not (code_matches py code (settings s.con.db).code)
      then (wrong_code, fail_code ip clock s)
      else (entered (access_token py s.con.db), s)

  unfoldable pub answer_claim :
      Outcome Error (String × String) → Connection → Server → Answer × Server
  unfolding fail_address
  answer_claim (ok (token, lab)) con s = (lab_link token, record s { con = con })
  answer_claim (err (guess m)) con s = (refused m, fail_address ip clock (record s { con = con }))
  answer_claim (err (claim m)) con s = (refused m, record s { con = con })
  answer_claim (err e) con s = (crashed, record s { con = con })

  unfoldable pub ask_claim : Tx (String × String) → Server → Answer × Server
  ask_claim m s = let (r, con) = m s.con in answer_claim r con s

  unfoldable pub claim_of : Post py → String → Tx (String × String)
  unfolding form_value
  claim_of p current =
      let email = prefix 254 (strip (form_value "email" p.form)) in
      let name = prefix 80 (strip (form_value "name" p.form)) in
      let pin = form_value "pin" p.form in
      if p.path == "/recover"
      then recover py p.draw current email pin
      else claim_open py p.draw current email name pin

  unfoldable pub claim_with : Outcome CompareError Bool → Post py → Server → Answer × Server
  claim_with (err e) p s = (crashed, s)
  claim_with (ok false) p s = (front, s)
  claim_with (ok true) p s = ask_claim (claim_of p (or_default "" (settings s.con.db).code)) s

  unfoldable pub post_checked : Post py → Server → Answer × Server
  post_checked p s =
      if p.path == "/forget"
      then (forgotten, s)
      else if over s.limiter ip clock.start
      then (slow_down, s)
      else if p.path == "/enter"
      then enter (form_value "code" p.form) s
      else claim_with (has_access py p.access s.con.db) p s

  -- hmac.compare_digest raises for a text that is not ASCII.
  unfoldable pub do_post : Post py → Server → Answer × Server
  do_post p s =
      let csrf = form_value "csrf" p.form in
      if not (contains post_paths p.path)
      then (not_found, s)
      else if not (fits p.length)
      then (too_large, s)
      else if is_empty p.csrf
      then (expired, s)
      else if not (is_ascii p.csrf && is_ascii csrf)
      then (crashed, s)
      else if not (p.csrf == csrf)
      then (expired, s)
      else post_checked p s

  unfoldable pub answer_link :
      Outcome Error (Option LabView) → Connection → Server → Answer × Server
  answer_link (ok (some row)) con s = (lab_page row, record s { con = con })
  answer_link (ok none) con s =
      if over s.limiter ip clock.start
      then (slow_down, record s { con = con })
      else (not_found, fail_address ip clock (record s { con = con }))
  answer_link (err e) con s = (crashed, record s { con = con })

  unfoldable pub get_link : String → String → Server → Answer × Server
  get_link now token s = let (r, con) = lab_for_token py now token s.con in answer_link r con s

  unfoldable pub get_admin : String → Server → Answer × Server
  get_admin token s =
      if over s.limiter ip clock.start
      then (slow_down, s)
      else if not (is_admin_token py token s.con.db)
      then (not_found, fail_address ip clock s)
      else (admin_page, s)

  unfoldable pub visit : Visit py → Server → Answer × Server
  visit (post p) s = do_post p s
  visit (link now token) s = get_link now token s
  visit (admin token) s = get_admin token s

-- A request, its address and the readings of the clock while it is served.
pub record Arrival (py : Python) : Type 0 where
  pub ip : String
  pub clock : Clock
  pub request : Visit py

-- Requests, one after another.
unfoldable pub visits : (py : Python) → List (Arrival py) → Server → Server
visits py [] s = s
visits py (a ∷ l) s = visits py l (visit py a.ip a.clock a.request s).1

-- make_server
unfoldable pub make_server : Connection → Server
make_server con = record {
  con = con;
  limiter = record { limit = rate_limit; window = rate_window; hits = [] };
  code_limiter = record { limit = code_fail_limit_all; window = rate_window; hits = [] };
}
