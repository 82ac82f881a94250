-- ===== src/Web/Limiter.antt =====
-- RateLimiter of rodeo/portal/web.py. Times are natural numbers of one clock that does not go back;
-- `t - x < window` is written t < x + window.
use rodeo_cli.Base.{
  ℕ, ◌+◌, String, Bool, false, none, some, List, [], ◌∷◌, ◌++◌, if◌then◌else◌, ltb, leb,
}
use rodeo_cli.Base.Lists.{keep, length}
use rodeo_cli.Base.Dict
use rodeo_cli.Base.Dict.{Dict}

pub record Limiter : Type 0 where
  pub limit : ℕ
  pub window : ℕ
  pub hits : Dict (List ℕ)

abbrev pub is_recent : ℕ → ℕ → ℕ → Bool
is_recent window t x = ltb t (x + window)

unfoldable pub times_of : String → Dict (List ℕ) → List ℕ
times_of key hits = elim (Dict.lookup key hits) [ none ↦ [] | some l ↦ l ]

unfoldable pub recent : Limiter → String → ℕ → List ℕ
recent l key t = keep (is_recent l.window t) (times_of key l.hits)

unfoldable pub count : Limiter → String → ℕ → ℕ
count l key t = length (recent l key t)

unfoldable pub over : Limiter → String → ℕ → Bool
over l key t = leb l.limit (count l key t)

-- t - v[-1] < window, for a list that is not empty, as every entry is.
unfoldable pub last_recent : ℕ → ℕ → List ℕ → Bool
last_recent window t [] = false
last_recent window t (x ∷ []) = is_recent window t x
last_recent window t (x ∷ xs) = last_recent window t xs

-- What is kept when there are too many entries.
unfoldable pub fresh_entries : ℕ → ℕ → Dict (List ℕ) → Dict (List ℕ)
fresh_entries window t [] = []
fresh_entries window t ((k, v) ∷ d) =
    let rest = fresh_entries window t d in if last_recent window t v then (k, v) ∷ rest else rest

unfoldable pub bound_entries : ℕ → ℕ → Dict (List ℕ) → Dict (List ℕ)
bound_entries window t hits = if ltb 10000 (length hits) then fresh_entries window t hits else hits

unfoldable pub fail : Limiter → String → ℕ → Limiter
fail l key t = record l {
  hits = bound_entries l.window t (Dict.insert key (recent l key t ++ t ∷ []) l.hits);
}
