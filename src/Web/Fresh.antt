-- ===== src/Web/Fresh.antt =====
-- Requests from other addresses do not keep an address out (rodeo/portal/web.py).
use mathlib.Core.Path.{subst}
use rodeo_cli.Base.{
  ◌≡◌, refl, sym, ℕ, ◌≤◌, String, Bool, true, false, not, ◌&&◌, List, [], ◌∷◌, ◌++◌, inl, inr,
  arith, string_eq, ◌==◌, contains,
}
use rodeo_cli.Base.Dict
use rodeo_cli.Base.Dict.{Dict}
use rodeo_cli.Portal.Python.{Python}
use rodeo_cli.Portal.Text.{is_empty}
use rodeo_cli.Portal.Tx.{Connection}
use rodeo_cli.Portal.Settings.{settings, code_matches, access_token, is_ascii}
use rodeo_cli.Web.Limiter.{
  Limiter, times_of, recent, count, over, fresh_entries, bound_entries, fail,
}
use rodeo_cli.Web.Counted.{visit-Counts}
use rodeo_cli.Web.Server.{
  post_paths, Server, Clock, entered, Post, Arrival, fits, form_value, enter, post_checked, do_post,
  visits, make_server, rate_limit,
}

-- The address has no entry.
unfoldable pub is_absent : String → Dict (List ℕ) → Bool
is_absent ip [] = true
is_absent ip ((k, v) ∷ d) = not (ip == k) && is_absent ip d

pub times_of-is_absent :
    (ip : String) (d : Dict (List ℕ)) → is_absent ip d ≡ true → times_of ip d ≡ []
unfolding is_absent times_of Dict.lookup
times_of-is_absent ip [] h = refl
times_of-is_absent ip ((k, v) ∷ d) h = ground (arith, h, times_of-is_absent ip d)

pub insert-is_absent :
    (ip key : String) (v : List ℕ) (d : Dict (List ℕ))
    → (ip == key) ≡ false
    → is_absent ip d ≡ true
    → is_absent ip (Dict.insert key v d) ≡ true
unfolding is_absent Dict.insert
insert-is_absent ip key v [] o h = ground (arith, o)
insert-is_absent ip key v ((k, w) ∷ d) o h = ground (arith, o, h, insert-is_absent ip key v d o)

pub fresh_entries-is_absent :
    (ip : String) (window t : ℕ) (d : Dict (List ℕ))
    → is_absent ip d ≡ true
    → is_absent ip (fresh_entries window t d) ≡ true
unfolding is_absent fresh_entries
fresh_entries-is_absent ip window t [] h = refl
fresh_entries-is_absent ip window t ((k, v) ∷ d) h =
    ground (arith, h, fresh_entries-is_absent ip window t d)

-- The limiter has the limit n and no entry of the address.
abbrev pub IsUntouched : ℕ → String → Limiter → Type 0
IsUntouched n ip l = (l.limit ≡ n) × (is_absent ip l.hits ≡ true)

fail-IsUntouched :
    (n : ℕ) (ip key : String) (t : ℕ) (l : Limiter)
    → (ip == key) ≡ false
    → IsUntouched n ip l
    → IsUntouched n ip (fail l key t)
unfolding fail bound_entries
fail-IsUntouched n ip key t l o (limit, absent) =
    let added = insert-is_absent ip key (recent l key t ++ t ∷ []) l.hits o absent in
    let kept = fresh_entries-is_absent ip l.window t _ added in (limit, ground (arith, added, kept))

count-IsUntouched :
    (n : ℕ) (ip : String) (t : ℕ) (l : Limiter) → IsUntouched n ip l → count l ip t ≡ 0
unfolding count recent
count-IsUntouched n ip t l (limit, absent) = rw (times_of-is_absent ip l.hits absent) refl

over-IsUntouched :
    (n : ℕ) (ip : String) (t : ℕ) (l : Limiter) → 1 ≤ n → IsUntouched n ip l → over l ip t ≡ false
unfolding over
over-IsUntouched n ip t l some_limit (limit, absent) =
    ground (arith, some_limit, limit, count-IsUntouched n ip t l (limit, absent))

-- None of the requests comes from the address.
abbrev pub AreOthers : {py : Python} → String → List (Arrival py) → Type 0
AreOthers ip [] = Unit
AreOthers ip (a ∷ l) = ((ip == a.ip) ≡ false) × AreOthers ip l

visits-IsUntouched :
    (n : ℕ) (py : Python) (ip : String) (l : List (Arrival py)) (s : Server)
    → AreOthers ip l
    → IsUntouched n ip s.limiter
    → IsUntouched n ip (visits py l s).limiter
unfolding visits
visits-IsUntouched n py ip [] s o h = h
visits-IsUntouched n py ip (a ∷ l) s (o, os) h =
    visits-IsUntouched n py ip l _ os (elim (visit-Counts py a.ip a.clock a.request s).change [
      | inl same ↦ subst (IsUntouched n ip) (sym same) h
      | inr (free, more) ↦
          subst (IsUntouched n ip) (sym more)
            (fail-IsUntouched n ip a.ip a.clock.failed s.limiter o h)
    ])

-- A form with the cookie of its page and a code.
pub record IsEntry (py : Python) (s : Server) (p : Post py) : Type 0 where
  pub path : p.path ≡ "/enter"
  pub fit : fits p.length ≡ true
  pub cookie : is_empty p.csrf ≡ false
  pub ascii : is_ascii p.csrf ≡ true
  pub form_ascii : is_ascii (form_value "csrf" p.form) ≡ true
  pub same : (p.csrf == form_value "csrf" p.form) ≡ true
  pub code : code_matches py (form_value "code" p.form) (settings s.con.db).code ≡ true

enter-IsUntouched :
    (n : ℕ) (py : Python) (ip : String) (clock : Clock) (code : String) (s : Server)
    → code_matches py code (settings s.con.db).code ≡ true
    → IsUntouched n ip s.limiter
    → enter py ip clock code s ≡ (entered (access_token py s.con.db), s)
unfolding enter
enter-IsUntouched n py ip clock code s right h =
    rw (right, count-IsUntouched n ip clock.counted s.limiter h) (ground arith)

enter_path :
    (path : String)
    → path ≡ "/enter"
    → (contains post_paths path ≡ true)
      × ((path == "/forget") ≡ false)
      × ((path == "/enter") ≡ true)
unfolding contains string_eq
enter_path path h = rw h (refl, refl, refl)

do_post-IsEntry :
    (n : ℕ) (py : Python) (ip : String) (clock : Clock) (p : Post py) (s : Server)
    → 1 ≤ n
    → IsEntry py s p
    → IsUntouched n ip s.limiter
    → do_post py ip clock p s ≡ (entered (access_token py s.con.db), s)
unfolding do_post post_checked
do_post-IsEntry n py ip clock p s some_limit e h =
    let free = over-IsUntouched n ip clock.start s.limiter some_limit h in
    let got = enter-IsUntouched n py ip clock (form_value "code" p.form) s e.code h in
    let (is_post, no_forget, is_enter) = enter_path p.path e.path in
    rw (e.fit, e.cookie, e.ascii, e.form_ascii, e.same, is_post, no_forget, is_enter, free) got

-- After any requests from other addresses, failing or not, one after another, from a server that was
-- just made, a form with the cookie of its page and the right code is let in.
pub do_post-visits :
    (py : Python) (con : Connection) (l : List (Arrival py)) (ip : String) (clock : Clock)
    (p : Post py)
    → AreOthers ip l
    → IsEntry py (visits py l (make_server con)) p
    → do_post py ip clock p (visits py l (make_server con)) ≡ (
      entered (access_token py (visits py l (make_server con)).con.db),
      visits py l (make_server con),
    )
unfolding make_server is_absent
do_post-visits py con l ip clock p others e =
    do_post-IsEntry rate_limit py ip clock p _ (omega arith) e
      (visits-IsUntouched rate_limit py ip l (make_server con) others (refl, refl))
