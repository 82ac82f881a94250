-- ===== src/Portal/Text.antt =====
-- The regular expressions and normal forms of rodeo/portal/claims.py, over code points.
use Prim.Native.Char.{code}
use rodeo_cli.Base.{
  ℕ, zero, suc, String, Bool, true, false, not, ◌&&◌, ◌||◌, Option, none, some, List, [], ◌∷◌, ◌==◌,
  nat_eq, leb, if◌then◌else◌, contains,
}
use rodeo_cli.Base.Lists.{length, all}

-- The code points of a text.
unfoldable pub codes : String → List ℕ
codes String.[] = []
codes (String.◌∷◌ c s) = code c ∷ codes s

-- str.isspace and `\s`: the white space of Unicode, as Python lists it.
unfoldable pub is_space : ℕ → Bool
is_space c =
    (leb 9 c && leb c 13)
    || (leb 28 c && leb c 32)
    || contains (133 ∷ 160 ∷ 5760 ∷ 8232 ∷ 8233 ∷ 8239 ∷ 8287 ∷ 12288 ∷ []) c
    || (leb 8192 c && leb c 8202)

unfoldable pub is_letter : ℕ → Bool
is_letter c = (leb b'A' c && leb c b'Z') || (leb b'a' c && leb c b'z')

unfoldable pub is_alphanumeric : ℕ → Bool
unfolding is_letter
is_alphanumeric c = is_letter c || (leb b'0' c && leb c b'9')

unfoldable pub lstrip : String → String
lstrip String.[] = String.[]
lstrip (String.◌∷◌ c s) = let rest = lstrip s in if is_space (code c) then rest else String.◌∷◌ c s

unfoldable pub is_empty : String → Bool
is_empty String.[] = true
is_empty (String.◌∷◌ c s) = false

unfoldable pub rstrip : String → String
rstrip String.[] = String.[]
rstrip (String.◌∷◌ c s) =
    let rest = rstrip s in
    if is_empty rest && is_space (code c) then String.[] else String.◌∷◌ c rest

-- s.strip()
unfoldable pub strip : String → String
unfolding lstrip rstrip is_space is_empty
strip s = rstrip (lstrip s)

-- s[:n]
unfoldable pub prefix : ℕ → String → String
prefix zero s = String.[]
prefix (suc n) String.[] = String.[]
prefix (suc n) (String.◌∷◌ c s) = String.◌∷◌ c (prefix n s)

-- A pattern that ends in `$` also matches before one final line feed.
unfoldable pub init_before_newline : List ℕ → Option (List ℕ)
init_before_newline [] = none
init_before_newline (c ∷ []) = if c == 10 then some [] else none
init_before_newline (c ∷ d ∷ s) = elim (init_before_newline (d ∷ s)) [
  | none ↦ none
  | some r ↦ some (c ∷ r)
]

unfoldable pub at_end : (List ℕ → Bool) → List ℕ → Bool
unfolding init_before_newline
at_end matches s = matches s || (elim (init_before_newline s) [ none ↦ false | some r ↦ matches r ])

-- `[^@\s<>"'`]`
unfoldable pub is_email_char : ℕ → Bool
unfolding is_space
is_email_char c = not (contains (64 ∷ 60 ∷ 62 ∷ 34 ∷ 39 ∷ 96 ∷ []) c || is_space c)

abbrev between : ℕ → ℕ → List ℕ → Bool
between lo hi s = leb lo (length s) && leb (length s) hi

-- The parts before and after the first `c`.
unfoldable pub split_first : ℕ → List ℕ → Option (List ℕ × List ℕ)
split_first c [] = none
split_first c (d ∷ s) =
    let rest = split_first c s in
    if d == c then some ([], s) else (elim rest [ none ↦ none | some (a, b) ↦ some (d ∷ a, b) ])

-- The parts before and after the last `c`.
unfoldable pub split_last : ℕ → List ℕ → Option (List ℕ × List ℕ)
split_last c [] = none
split_last c (d ∷ s) = elim (split_last c s) [
  | some (a, b) ↦ some (d ∷ a, b)
  | none ↦ if d == c then some ([], s) else none
]

-- The part behind `@` of EMAIL_RE. The letters at the end hold no dot, so the last dot is the one.
email_domain : List ℕ → Bool
email_domain s = elim (split_last 46 s) [
  | none ↦ false
  | some (domain, top) ↦
      between 1 190 domain && all is_email_char domain && leb 2 (length top) && all is_letter top
]

-- The local part holds no `@`, so the first one ends it.
email_body : List ℕ → Bool
email_body s = elim (split_first 64 s) [
  | none ↦ false
  | some (local, rest) ↦ between 1 64 local && all is_email_char local && email_domain rest
]

-- EMAIL_RE.match(s)
unfoldable pub matches_email : String → Bool
unfolding codes at_end email_body email_domain split_first split_last is_email_char is_letter
matches_email s = at_end email_body (codes s)

lab_id_body : List ℕ → Bool
lab_id_body [] = false
lab_id_body (c ∷ s) =
    is_alphanumeric c
    && all (λ d. is_alphanumeric d || contains (95 ∷ 46 ∷ 45 ∷ []) d) s
    && leb (length s) 62

-- LAB_ID_RE.match(s)
unfoldable pub matches_lab_id : String → Bool
unfolding codes at_end lab_id_body is_alphanumeric
matches_lab_id s = at_end lab_id_body (codes s)

token_body : List ℕ → Bool
token_body s = between 20 64 s && all (λ d. is_alphanumeric d || contains (95 ∷ 45 ∷ []) d) s

-- TOKEN_RE.match(s)
unfoldable pub matches_token : String → Bool
unfolding codes at_end token_body is_alphanumeric
matches_token s = at_end token_body (codes s)

unfoldable pub strip_prefix : List ℕ → List ℕ → Option (List ℕ)
strip_prefix [] s = some s
strip_prefix (c ∷ p) [] = none
strip_prefix (c ∷ p) (d ∷ s) = let rest = strip_prefix p s in if c == d then rest else none

-- `(?!/)[A-Za-z0-9._~/-]{0,200}`
guide_path : List ℕ → Bool
guide_path [] = true
guide_path (c ∷ s) =
    not (c == 47)
    && all (λ d. is_alphanumeric d || contains (46 ∷ 95 ∷ 126 ∷ 47 ∷ 45 ∷ []) d) (c ∷ s)
    && leb (length (c ∷ s)) 200

guide_body : List ℕ → Bool
unfolding codes strip_prefix
guide_body s =
    (elim (strip_prefix (codes "https://") s) [
      | none ↦ false
      | some rest ↦
          between 4 2000 rest
          && all (λ d. not (contains (34 ∷ 39 ∷ 60 ∷ 62 ∷ []) d || is_space d)) rest
    ])
    || (elim (strip_prefix (47 ∷ []) s) [ none ↦ false | some rest ↦ guide_path rest ])

-- GUIDE_URL_RE.match(s)
unfoldable pub matches_guide_url : String → Bool
unfolding codes at_end guide_body guide_path is_alphanumeric is_space
matches_guide_url s = at_end guide_body (codes s)

-- re.sub(r"[^A-Z0-9]", "", s)
unfoldable pub keep_code : String → String
keep_code String.[] = String.[]
keep_code (String.◌∷◌ c s) =
    let rest = keep_code s in
    if (leb b'A' (code c) && leb (code c) b'Z') || (leb b'0' (code c) && leb (code c) b'9')
    then String.◌∷◌ c rest
    else rest
