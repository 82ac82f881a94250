-- ===== src/Web/Window.antt =====
-- What RateLimiter of rodeo/portal/web.py counts, also after it drops old entries: the failures of
-- the window, as a log of all failures has them.
use rodeo_cli.Base.{
  ◌≡◌, refl, sym, ◌∙◌, ap, ℕ, ◌≤◌, String, Bool, true, false, List, [], ◌∷◌, ◌++◌, if◌then◌else◌,
  ltb, leb, arith, string_eq, ◌==◌, inl, inr, Bool-cases, ==→≡,
}
use rodeo_cli.Base.Lists.{keep, length, all, all-append, all-keep, all_weaken}
use rodeo_cli.Base.Dict
use rodeo_cli.Base.Dict.{Dict}
use rodeo_cli.Web.Limiter.{Limiter, is_recent, times_of, recent, count, bound_entries, fail}
use rodeo_cli.Web.Pruned.{
  latest, latest-append, keep-append, keep-keep, is_tidy, are_past, times_of-insert,
  times_of-are_past, insert-is_tidy, insert-are_past, fresh_entries-is_tidy, fresh_entries-are_past,
  keep-fresh_entries,
}

-- The failures of an address, from a log that has the newest first.
abbrev pub failures : String → List (String × ℕ) → List ℕ
failures key [] = []
failures key ((k, t) ∷ log) =
    let rest = failures key log in if key == k then rest ++ t ∷ [] else rest

abbrev pub fails : Limiter → List (String × ℕ) → Limiter
fails l [] = l
fails l ((k, t) ∷ log) = fail (fails l log) k t

abbrev pub last_time : List (String × ℕ) → ℕ
last_time [] = 0
last_time ((k, t) ∷ log) = t

-- The clock does not go back.
abbrev pub AreOrdered : List (String × ℕ) → Type 0
AreOrdered [] = Unit
AreOrdered ((k, t) ∷ log) = (last_time log ≤ t) × AreOrdered log

-- The entries hold what is recent now or later of the log.
record Tracks (l : Limiter) (now : ℕ) (log : List (String × ℕ)) : Type 0 where
  tidy : is_tidy l.hits ≡ true
  past : are_past now l.hits ≡ true
  same :
      (key : String) (u : ℕ)
      → now ≤ u
      → keep (is_recent l.window u) (times_of key l.hits)
        ≡ keep (is_recent l.window u) (failures key log)

all_past_later :
    (t u : ℕ) (l : List ℕ) → t ≤ u → all (λ x. leb x t) l ≡ true → all (λ x. leb x u) l ≡ true
all_past_later t u l h = all_weaken (λ x. leb x t) (λ x. leb x u) l (λ x p. ground (arith, h, p))

are_past_later : (t u : ℕ) (d : Dict (List ℕ)) → t ≤ u → are_past t d ≡ true → are_past u d ≡ true
unfolding are_past
are_past_later t u [] h p = refl
are_past_later t u ((k, v) ∷ d) h p =
    ground (arith, p, all_past_later t u v h, are_past_later t u d h)

keep_either :
    (p : ℕ → Bool) (j : String) (b : Bool) (d e : Dict (List ℕ))
    → keep p (times_of j d) ≡ keep p (times_of j e)
    → keep p (times_of j (if b then d else e)) ≡ keep p (times_of j e)
keep_either p j true d e h = h
keep_either p j false d e h = refl

-- The new entry: what is recent of the old one, and the time of the failure.
module _ (window now t : ℕ) (k : String) (d : Dict (List ℕ)) where
  abbrev entry : List ℕ
  entry = keep (is_recent window t) (times_of k d) ++ t ∷ []

  entry_past : now ≤ t → are_past now d ≡ true → all (λ x. leb x t) entry ≡ true
  entry_past later past =
      let old = all_past_later now t _ later (times_of-are_past now k d past) in
      let kept = all-keep (λ x. leb x t) (is_recent window t) (times_of k d) old in
      ground
        (arith, kept, all-append (λ x. leb x t) (keep (is_recent window t) (times_of k d)) (t ∷ []))

  entry_top : now ≤ t → are_past now d ≡ true → all (λ x. leb x (latest entry)) entry ≡ true
  entry_top later past =
      rw (latest-append (keep (is_recent window t) (times_of k d)) t) (entry_past later past)

  bound_entries-is_tidy :
      (e : Dict (List ℕ)) → is_tidy e ≡ true → is_tidy (bound_entries window t e) ≡ true
  unfolding bound_entries
  bound_entries-is_tidy e h = ground (arith, h, fresh_entries-is_tidy window t e h)

  bound_entries-are_past :
      (e : Dict (List ℕ)) → are_past t e ≡ true → are_past t (bound_entries window t e) ≡ true
  unfolding bound_entries
  bound_entries-are_past e h = ground (arith, h, fresh_entries-are_past t window t e h)

  keep-bound_entries :
      (u : ℕ) (j : String) (e : Dict (List ℕ))
      → t ≤ u
      → is_tidy e ≡ true
      → keep (is_recent window u) (times_of j (bound_entries window t e))
        ≡ keep (is_recent window u) (times_of j e)
  unfolding bound_entries
  keep-bound_entries u j e h tidy =
      keep_either _ j (ltb 10000 (length e)) _ e (keep-fresh_entries window t u j e h tidy)

  -- It is recent what was, and the failure.
  keep-entry :
      (u : ℕ) (l : List ℕ)
      → t ≤ u
      → keep (is_recent window u) (times_of k d) ≡ keep (is_recent window u) l
      → keep (is_recent window u) entry ≡ keep (is_recent window u) (l ++ t ∷ [])
  keep-entry u l h same =
      keep-append (is_recent window u) (keep (is_recent window t) (times_of k d)) (t ∷ [])
      ∙ ap (λ m. m ++ keep (is_recent window u) (t ∷ []))
          (keep-keep window t u (times_of k d) h ∙ same)
      ∙ sym (keep-append (is_recent window u) l (t ∷ []))

  keep-insert :
      (u : ℕ) (j : String) (f : String → List ℕ)
      → t ≤ u
      → ((i : String) → keep (is_recent window u) (times_of i d) ≡ keep (is_recent window u) (f i))
      → keep (is_recent window u) (times_of j (Dict.insert k entry d))
        ≡ keep (is_recent window u) (if j == k then f j ++ t ∷ [] else f j)
  keep-insert u j f h same =
      ap (keep (is_recent window u)) (times_of-insert j k entry d) ∙ (elim (Bool-cases (j == k)) [
        | inl e ↦ rw (e, ==→≡ j k e) (keep-entry u (f k) h (same k))
        | inr e ↦ rw e (same j)
      ])

-- One failure more is followed.
fail-Tracks :
    (l : Limiter) (now t : ℕ) (k : String) (log : List (String × ℕ))
    → now ≤ t
    → Tracks l now log
    → Tracks (fail l k t) t ((k, t) ∷ log)
unfolding fail recent
fail-Tracks l now t k log later h =
    let d = l.hits in
    let tidy =
      insert-is_tidy k (entry l.window now t k d) d (entry_top l.window now t k d later h.past)
        h.tidy in
    let past =
      insert-are_past t k (entry l.window now t k d) d (entry_past l.window now t k d later h.past)
        (are_past_later now t d later h.past) in
    record {
      tidy = bound_entries-is_tidy l.window now t k d _ tidy;
      past = bound_entries-are_past l.window now t k d _ past;
      same = λ key u recent_now.
          keep-bound_entries l.window now t k d u key _ recent_now tidy
          ∙ keep-insert l.window now t k d u key (λ i. failures i log) recent_now
              (λ i. h.same i u (omega (arith, later, recent_now)));
    }

fails-Tracks :
    (l : Limiter) (log : List (String × ℕ))
    → l.hits ≡ []
    → AreOrdered log
    → Tracks (fails l log) (last_time log) log
unfolding is_tidy are_past times_of Dict.lookup
fails-Tracks l [] e o = record {
  tidy = rw e refl;
  past = rw e refl;
  same = λ key u later. rw e refl;
}
fails-Tracks l ((k, t) ∷ log) e (later, o) =
    fail-Tracks (fails l log) (last_time log) t k log later (fails-Tracks l log e o)

fails-window : (l : Limiter) (log : List (String × ℕ)) → (fails l log).window ≡ l.window
unfolding fail
fails-window l [] = refl
fails-window l ((k, t) ∷ log) = fails-window l log

-- A limiter that starts empty and records the failures of a log, at times that do not go back,
-- counts for each address, at any time from the last failure on, the failures of the log that are
-- within the window, whatever old entries were dropped.
pub count-fails :
    (l : Limiter) (log : List (String × ℕ)) (key : String) (t : ℕ)
    → l.hits ≡ []
    → AreOrdered log
    → last_time log ≤ t
    → count (fails l log) key t ≡ length (keep (is_recent l.window t) (failures key log))
unfolding count recent
count-fails l log key t e o later =
    ap length ((fails-Tracks l log e o).same key t later)
    ∙ ap (λ w. length (keep (is_recent w t) (failures key log))) (fails-window l log)
