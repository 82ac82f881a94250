-- ===== src/Web/Limited.antt =====
-- How many failures of one address the web server (rodeo/portal/web.py) counts at most.
use rodeo_cli.Base.{
  ◌≡◌, refl, sym, inl, inr, ℕ, ◌≤◌, String, Bool, true, false, ◌&&◌, List, [], ◌∷◌, ◌++◌, leb,
  arith, string_eq,
}
use rodeo_cli.Base.Lists.{keep, length, length-append}
use rodeo_cli.Base.Dict
use rodeo_cli.Base.Dict.{Dict}
use rodeo_cli.Portal.Python.{Python}
use rodeo_cli.Portal.Tx.{Connection}
use rodeo_cli.Web.Limiter.{
  Limiter, is_recent, times_of, recent, count, over, fresh_entries, bound_entries, fail,
}
use mathlib.Core.Path.{subst}
use rodeo_cli.Web.Counted.{visit-Counts}
use rodeo_cli.Web.Server.{Server, Arrival, visits, make_server, rate_limit}

length-keep : (p : ℕ → Bool) (l : List ℕ) → length (keep p l) ≤ length l
length-keep p [] = omega arith
length-keep p (x ∷ l) = ground (arith, length-keep p l)

-- At a later time no more of the times are recent.
length-keep_later :
    (window t u : ℕ) (l : List ℕ)
    → t ≤ u
    → length (keep (is_recent window u) l) ≤ length (keep (is_recent window t) l)
length-keep_later window t u [] h = omega arith
length-keep_later window t u (x ∷ l) h = ground (arith, h, length-keep_later window t u l h)

-- Each address has no more than n times.
unfoldable pub are_short : ℕ → Dict (List ℕ) → Bool
are_short n [] = true
are_short n ((k, v) ∷ d) = leb (length v) n && are_short n d

times_of-are_short :
    (n : ℕ) (key : String) (d : Dict (List ℕ)) → are_short n d ≡ true → length (times_of key d) ≤ n
unfolding are_short times_of Dict.lookup
times_of-are_short n key [] h = omega arith
times_of-are_short n key ((k, v) ∷ d) h = ground (arith, h, times_of-are_short n key d)

insert-are_short :
    (n : ℕ) (key : String) (v : List ℕ) (d : Dict (List ℕ))
    → length v ≤ n
    → are_short n d ≡ true
    → are_short n (Dict.insert key v d) ≡ true
unfolding are_short Dict.insert
insert-are_short n key v [] p h = ground (arith, p)
insert-are_short n key v ((k, w) ∷ d) p h = ground (arith, p, h, insert-are_short n key v d p)

fresh_entries-are_short :
    (n window t : ℕ) (d : Dict (List ℕ))
    → are_short n d ≡ true
    → are_short n (fresh_entries window t d) ≡ true
unfolding are_short fresh_entries
fresh_entries-are_short n window t [] h = refl
fresh_entries-are_short n window t ((k, v) ∷ d) h =
    ground (arith, h, fresh_entries-are_short n window t d)

bound_entries-are_short :
    (n window t : ℕ) (d : Dict (List ℕ))
    → are_short n d ≡ true
    → are_short n (bound_entries window t d) ≡ true
unfolding bound_entries
bound_entries-are_short n window t d h = ground (arith, h, fresh_entries-are_short n window t d h)

-- The limiter has the limit n, and no address has more than n times.
abbrev pub IsLimited : ℕ → Limiter → Type 0
IsLimited n l = (l.limit ≡ n) × (are_short n l.hits ≡ true)

fail-IsLimited :
    (n : ℕ) (l : Limiter) (key : String) (t u : ℕ)
    → t ≤ u
    → over l key t ≡ false
    → IsLimited n l
    → IsLimited n (fail l key u)
unfolding fail over count recent
fail-IsLimited n l key t u later free (limit, short) =
    let times = recent l key u in
    let fewer = length-keep_later l.window t u (times_of key l.hits) later in
    let added = length-append times (u ∷ []) in
    let fits : length (times ++ u ∷ []) ≤ n = ground (arith, free, limit, fewer, added) in
    (limit, bound_entries-are_short n _ _ _ (insert-are_short n key _ l.hits fits short))

count-IsLimited : (n : ℕ) (l : Limiter) (key : String) (t : ℕ) → IsLimited n l → count l key t ≤ n
unfolding count recent
count-IsLimited n l key t (limit, short) =
    let a = length-keep (is_recent l.window t) (times_of key l.hits) in
    let b = times_of-are_short n key l.hits short in omega (arith, a, b)

-- The clock does not go back while a request is served.
abbrev pub AreTimely : {py : Python} → List (Arrival py) → Type 0
AreTimely [] = Unit
AreTimely (a ∷ l) = (a.clock.start ≤ a.clock.failed) × AreTimely l

visits-IsLimited :
    (n : ℕ) (py : Python) (l : List (Arrival py)) (s : Server)
    → AreTimely l
    → IsLimited n s.limiter
    → IsLimited n (visits py l s).limiter
unfolding visits
visits-IsLimited n py [] s t h = h
visits-IsLimited n py (a ∷ l) s (t, ts) h =
    visits-IsLimited n py l _ ts (elim (visit-Counts py a.ip a.clock a.request s).change [
      | inl same ↦ subst (IsLimited n) (sym same) h
      | inr (free, more) ↦
          subst (IsLimited n) (sym more)
            (fail-IsLimited n s.limiter a.ip a.clock.start a.clock.failed t free h)
    ])

-- After any requests one after another, from a server that was just made, each with a clock that
-- does not go back, no address has more than 30 failures that count, at any time.
pub count-visits :
    (py : Python) (con : Connection) (l : List (Arrival py)) (ip : String) (t : ℕ)
    → AreTimely l
    → count (visits py l (make_server con)).limiter ip t ≤ rate_limit
unfolding make_server are_short
count-visits py con l ip t timely =
    count-IsLimited rate_limit _ ip t
      (visits-IsLimited rate_limit py l (make_server con) timely (refl, refl))
