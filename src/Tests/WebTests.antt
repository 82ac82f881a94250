-- ===== src/Tests/WebTests.antt =====
-- Requests to the portal's server at concrete data (rodeo/portal/web.py).
use rodeo_cli.Base.{
  ◌≡◌, refl, ℕ, ◌≤◌, pos, String, false, some, List, [], ◌∷◌, ◌==◌, string_eq, nat_eq, arith,
}
use rodeo_cli.Base.Lists.{keep, length}
use rodeo_cli.Base.Dict
use rodeo_cli.Portal.Text.{is_empty, codes, keep_code}
use rodeo_cli.Portal.Db.{get_setting}
use rodeo_cli.Portal.Settings.{
  settings, or_default, code_matches, normalize_code, access_token, is_ascii, is_admin_token,
}
use rodeo_cli.Web.Limiter.{Limiter, is_recent, times_of, recent, count, over, bound_entries, fail}
use rodeo_cli.Web.Server.{
  Server, Clock, Post, Visit, Arrival, entered, fits, form_value, fail_address, get_admin, visit,
  visits, do_post, make_server, rate_limit,
}
use rodeo_cli.Web.Limited.{count-visits}
use rodeo_cli.Web.Fresh.{IsEntry, do_post-visits}
use rodeo_cli.Web.Window.{fails, failures, count-fails}
use rodeo_cli.Tests.PortalTests.{py, tables, at, draw, code_typed}

abbrev noon : Clock
noon = record { start = 10; codes = 10; counted = 11; failed = 11; code_failed = 12 }

-- Someone guesses the instructor's link.
abbrev guesses : List (Arrival py)
guesses = (record { ip = "10.0.0.9"; clock = noon; request = Visit.admin "x" }) ∷ []

abbrev guessed : Server
guessed = visits py guesses (make_server (at tables))

abbrev entry : Post py
entry = record {
  path = "/enter";
  length = some (pos 20);
  form = ("csrf", "c1") ∷ ("code", code_typed) ∷ [];
  csrf = "c1";
  access = "";
  draw = draw "t1";
}

guess_counted : count guessed.limiter "10.0.0.9" 20 ≡ 1
unfolding visits visit get_admin make_server over count recent times_of Dict.lookup is_admin_token
    get_setting fail_address fail bound_entries Dict.insert string_eq
guess_counted = refl

count-visits_example : count guessed.limiter "10.0.0.9" 20 ≤ rate_limit
count-visits_example = count-visits py (at tables) guesses "10.0.0.9" 20 (omega arith, tt)

entry-IsEntry : IsEntry py guessed entry
unfolding visits visit get_admin make_server over count recent times_of Dict.lookup is_admin_token
    get_setting fail_address fits form_value or_default is_empty is_ascii codes code_matches
    normalize_code keep_code settings string_eq
entry-IsEntry = record {
  path = refl;
  fit = refl;
  cookie = refl;
  ascii = refl;
  form_ascii = refl;
  same = refl;
  code = refl;
}

other_address : (◌==◌ {A = String} "10.0.0.1" "10.0.0.9") ≡ false
unfolding string_eq
other_address = refl

do_post-visits_example :
    do_post py "10.0.0.1" noon entry guessed ≡ (entered (access_token py guessed.con.db), guessed)
do_post-visits_example =
    do_post-visits py (at tables) guesses "10.0.0.1" noon entry (other_address, tt) entry-IsEntry

abbrev small : Limiter
small = record { limit = 2; window = 5; hits = [] }

abbrev log : List (String × ℕ)
log = ("b", 9) ∷ ("a", 8) ∷ ("a", 2) ∷ []

count-fails_example :
    count (fails small log) "a" 10 ≡ length (keep (is_recent 5 10) (failures "a" log))
count-fails_example =
    count-fails small log "a" 10 refl (omega arith, (omega arith, (omega arith, tt))) (omega arith)

one_counted : length (keep (is_recent 5 10) (failures "a" log)) ≡ 1
unfolding string_eq
one_counted = refl
