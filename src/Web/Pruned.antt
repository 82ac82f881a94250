-- ===== src/Web/Pruned.antt =====
-- What RateLimiter of rodeo/portal/web.py keeps when it drops old entries.
use rodeo_cli.Base.{
  ◌≡◌, refl, sym, ◌∙◌, ℕ, ◌≤◌, String, Bool, true, false, ◌&&◌, List, [], ◌∷◌, ◌++◌, if◌then◌else◌,
  leb, arith, string_eq, ◌==◌, inl, inr, Bool-cases,
}
use rodeo_cli.Base.Lists.{keep, all}
use rodeo_cli.Base.Dict
use rodeo_cli.Base.Dict.{Dict}
use rodeo_cli.Web.Limiter.{is_recent, times_of, last_recent, fresh_entries}
use rodeo_cli.Web.Fresh.{is_absent, insert-is_absent, fresh_entries-is_absent, times_of-is_absent}

pub latest : List ℕ → ℕ
latest [] = 0
latest (x ∷ []) = x
latest (x ∷ y ∷ l) = latest (y ∷ l)

pub latest-append : (l : List ℕ) (t : ℕ) → latest (l ++ t ∷ []) ≡ t
unfolding latest
latest-append [] t = refl
latest-append (x ∷ []) t = refl
latest-append (x ∷ y ∷ l) t = latest-append (y ∷ l) t

last_recent-latest :
    (window t x : ℕ) (l : List ℕ)
    → last_recent window t (x ∷ l) ≡ is_recent window t (latest (x ∷ l))
unfolding latest last_recent
last_recent-latest window t x [] = refl
last_recent-latest window t x (y ∷ l) = last_recent-latest window t y l

pub keep-append : (p : ℕ → Bool) (l m : List ℕ) → keep p (l ++ m) ≡ keep p l ++ keep p m
keep-append p [] m = refl
keep-append p (x ∷ l) m = ground (arith, keep-append p l m)

-- What is recent later was recent before.
pub keep-keep :
    (window t u : ℕ) (l : List ℕ)
    → t ≤ u
    → keep (is_recent window u) (keep (is_recent window t) l) ≡ keep (is_recent window u) l
keep-keep window t u [] h = refl
keep-keep window t u (x ∷ l) h = ground (arith, h, keep-keep window t u l h)

-- Nothing is recent later where the greatest is not recent now.
keep_stale :
    (window t u m : ℕ) (l : List ℕ)
    → t ≤ u
    → all (λ x. leb x m) l ≡ true
    → is_recent window t m ≡ false
    → keep (is_recent window u) l ≡ []
keep_stale window t u m [] h a s = refl
keep_stale window t u m (x ∷ l) h a s =
    let below : all (λ y. leb y m) l ≡ true = ground (arith, a) in
    ground (arith, h, a, s, keep_stale window t u m l h below s)

-- Each key once, and in each entry the last time is the greatest.
unfoldable pub is_tidy : Dict (List ℕ) → Bool
is_tidy [] = true
is_tidy ((k, v) ∷ d) = is_absent k d && (all (λ x. leb x (latest v)) v && is_tidy d)

unfoldable pub are_past : ℕ → Dict (List ℕ) → Bool
are_past now [] = true
are_past now ((k, v) ∷ d) = all (λ x. leb x now) v && are_past now d

pub times_of-insert :
    (j k : String) (v : List ℕ) (d : Dict (List ℕ))
    → times_of j (Dict.insert k v d) ≡ (if j == k then v else times_of j d)
unfolding times_of
times_of-insert j k v d = ground (arith, Dict.lookup-insert j k v d)

pub times_of-are_past :
    (now : ℕ) (k : String) (d : Dict (List ℕ))
    → are_past now d ≡ true
    → all (λ x. leb x now) (times_of k d) ≡ true
unfolding are_past times_of Dict.lookup
times_of-are_past now k [] h = refl
times_of-are_past now k ((j, v) ∷ d) h = ground (arith, h, times_of-are_past now k d)

pub insert-is_tidy :
    (k : String) (v : List ℕ) (d : Dict (List ℕ))
    → all (λ x. leb x (latest v)) v ≡ true
    → is_tidy d ≡ true
    → is_tidy (Dict.insert k v d) ≡ true
unfolding is_tidy Dict.insert is_absent
insert-is_tidy k v [] p h = ground (arith, p)
insert-is_tidy k v ((j, w) ∷ d) p h =
    ground (arith, p, h, insert-is_absent j k v d, insert-is_tidy k v d p)

pub insert-are_past :
    (now : ℕ) (k : String) (v : List ℕ) (d : Dict (List ℕ))
    → all (λ x. leb x now) v ≡ true
    → are_past now d ≡ true
    → are_past now (Dict.insert k v d) ≡ true
unfolding are_past Dict.insert
insert-are_past now k v [] p h = ground (arith, p)
insert-are_past now k v ((j, w) ∷ d) p h = ground (arith, p, h, insert-are_past now k v d p)

pub fresh_entries-is_tidy :
    (window t : ℕ) (d : Dict (List ℕ))
    → is_tidy d ≡ true
    → is_tidy (fresh_entries window t d) ≡ true
unfolding is_tidy fresh_entries
fresh_entries-is_tidy window t [] h = refl
fresh_entries-is_tidy window t ((k, v) ∷ d) h =
    let absent : is_absent k d ≡ true = ground (arith, h) in
    ground (arith, h, fresh_entries-is_absent k window t d absent, fresh_entries-is_tidy window t d)

pub fresh_entries-are_past :
    (now window t : ℕ) (d : Dict (List ℕ))
    → are_past now d ≡ true
    → are_past now (fresh_entries window t d) ≡ true
unfolding are_past fresh_entries
fresh_entries-are_past now window t [] h = refl
fresh_entries-are_past now window t ((k, v) ∷ d) h =
    ground (arith, h, fresh_entries-are_past now window t d)

-- An entry that is dropped holds nothing that is recent then or later.
keep_dropped :
    (window t u : ℕ) (v : List ℕ)
    → t ≤ u
    → all (λ x. leb x (latest v)) v ≡ true
    → last_recent window t v ≡ false
    → keep (is_recent window u) v ≡ []
keep_dropped window t u [] h a s = refl
keep_dropped window t u (x ∷ l) h a s =
    keep_stale window t u (latest (x ∷ l)) (x ∷ l) h a (sym (last_recent-latest window t x l) ∙ s)

times_of-cons :
    (j k : String) (v : List ℕ) (d : Dict (List ℕ))
    → times_of j ((k, v) ∷ d) ≡ (if j == k then v else times_of j d)
unfolding times_of Dict.lookup
times_of-cons j k v d = ground arith

keep_chosen :
    (p : ℕ → Bool) (same : Bool) (v l m : List ℕ)
    → keep p l ≡ keep p m
    → keep p (if same then v else l) ≡ keep p (if same then v else m)
keep_chosen p true v l m h = refl
keep_chosen p false v l m h = h

keep_other :
    (p : ℕ → Bool) (j k : String) (v : List ℕ) (fresh : Dict (List ℕ)) (m : List ℕ)
    → keep p v ≡ []
    → times_of k fresh ≡ []
    → keep p (times_of j fresh) ≡ keep p m
    → keep p (times_of j fresh) ≡ keep p (if j == k then v else m)
keep_other p j k v fresh m dropped absent rest = ground (arith, dropped, absent, rest)

keep-fresh_entry :
    (window t u : ℕ) (j k : String) (v : List ℕ) (d fresh : Dict (List ℕ))
    → (last_recent window t v ≡ false → keep (is_recent window u) v ≡ [])
    → is_absent k fresh ≡ true
    → keep (is_recent window u) (times_of j fresh) ≡ keep (is_recent window u) (times_of j d)
    → keep
        (is_recent window u)
        (times_of j (if last_recent window t v then (k, v) ∷ fresh else fresh))
      ≡ keep (is_recent window u) (times_of j ((k, v) ∷ d))
keep-fresh_entry window t u j k v d fresh dropped absent rest =
    elim (Bool-cases (last_recent window t v)) [
      | inl newer ↦
          rw (newer, times_of-cons j k v fresh, times_of-cons j k v d)
            (keep_chosen _ (j == k) v _ _ rest)
      | inr older ↦
          rw (older, times_of-cons j k v d)
            (keep_other _ j k v fresh _ (dropped older) (times_of-is_absent k fresh absent) rest)
    ]

-- Dropping old entries drops nothing that is recent then or later.
pub keep-fresh_entries :
    (window t u : ℕ) (j : String) (d : Dict (List ℕ))
    → t ≤ u
    → is_tidy d ≡ true
    → keep (is_recent window u) (times_of j (fresh_entries window t d))
      ≡ keep (is_recent window u) (times_of j d)
unfolding is_tidy fresh_entries
keep-fresh_entries window t u j [] h tidy = refl
keep-fresh_entries window t u j ((k, v) ∷ d) h tidy =
    let absent : is_absent k d ≡ true = ground (arith, tidy) in
    let top : all (λ x. leb x (latest v)) v ≡ true = ground (arith, tidy) in
    keep-fresh_entry window t u j k v d (fresh_entries window t d) (keep_dropped window t u v h top)
      (fresh_entries-is_absent k window t d absent)
      (keep-fresh_entries window t u j d h (ground (arith, tidy)))
