-- ===== src/Portal/Settings.antt =====
-- The settings of the portal (rodeo/portal/claims.py): defaults, the workshop code, the cookie of
-- the board and the token of the instructor.
use rodeo_cli.Base.{
  ℕ, ℤ, pos, negsuc, String, ◌<>◌, Bool, false, not, ◌&&◌, Option, none, some, List, [], ◌∷◌,
  Outcome, ok, err, ◌==◌, string_eq, contains, ltb, if◌then◌else◌,
}
use rodeo_cli.Portal.Python.{Python}
use rodeo_cli.Base.Lists.{all}
use rodeo_cli.Portal.Text.{codes, is_empty, keep_code, matches_guide_url, matches_token}
use rodeo_cli.Portal.Db.{Db, Error, claim, value_error, get_setting, set_setting}
use rodeo_cli.Portal.Tx.{Tx, pure, raise, lift, select, modify, write_tx, ◌>>=◌, ◌>>◌}

abbrev modes : List String
modes = "open" ∷ "roster" ∷ "both" ∷ []

-- max(CODE_LETTERS_MIN, min(CODE_LETTERS_MAX, letters))
unfoldable pub clamp_letters : ℤ → ℕ
clamp_letters (pos n) = if ltb n 4 then 4 else if ltb 8 n then 8 else n
clamp_letters (negsuc n) = 4

-- What a call draws at random and from the clock: letters of a given number, and the day.
pub record CodeDraw : Type 0 where
  pub letters : ℕ → String
  pub day : String

unfoldable pub new_code : CodeDraw → ℤ → String
unfolding clamp_letters
new_code draw letters = "RODEO-" <> (draw.letters (clamp_letters letters) <> ("-" <> draw.day))

pub record Settings : Type 0 where
  pub code : Option String
  pub is_open : Bool
  pub mode : String
  pub title : String
  pub guide_url : String

unfoldable pub or_default : String → Option String → String
or_default d none = d
or_default d (some v) = v

unfoldable pub settings : Db → Settings
unfolding get_setting or_default
settings db = record {
  code = get_setting "code" db;
  is_open = or_default "" (get_setting "open" db) == "1";
  mode = or_default "both" (get_setting "mode" db);
  title = or_default "" (get_setting "title" db);
  guide_url = or_default "" (get_setting "guide_url" db);
}

-- set_setting where the key has no value yet
unfoldable pub set_if_missing : String → String → Db → Db
unfolding get_setting
set_if_missing k v db = elim (get_setting k db) [ none ↦ set_setting k v db | some _ ↦ db ]

unfoldable pub refuse_guide_url : Option String → Bool
refuse_guide_url none = false
refuse_guide_url (some url) = not (is_empty url) && not (matches_guide_url url)

unfoldable pub set_optional : String → Option String → Db → Db
set_optional k none db = db
set_optional k (some v) db = set_setting k v db

pub data CompareError : Type 0 where
  type_error : CompareError

unfoldable pub is_ascii : String → Bool
unfolding codes
is_ascii s = all (λ c. ltb c 128) (codes s)

module _ (py : Python) where
  unfoldable pub normalize_code : String → String
  normalize_code s = keep_code (py.upper s)

  unfoldable pub code_matches : String → Option String → Bool
  unfolding normalize_code
  code_matches given none = false
  code_matches given (some stored) =
      not (is_empty stored) && normalize_code given == normalize_code stored

  -- int(get_setting(con, "code_letters") or CODE_LETTERS_DEFAULT)
  unfoldable pub code_letters : Db → Outcome Error ℤ
  unfolding get_setting
  code_letters db = elim (get_setting "code_letters" db) [
    | none ↦ ok (pos 6)
    | some text ↦
        if is_empty text
        then ok (pos 6)
        else (elim (py.int text) [ none ↦ err value_error | some n ↦ ok n ])
  ]

  unfoldable pub set_code : CodeDraw → Tx (Unit {0})
  set_code draw = do
    read ← select code_letters
    letters ← lift read
    modify (set_setting "code" (new_code draw letters))

  unfoldable pub set_code_if_missing : CodeDraw → Option String → Tx (Unit {0})
  set_code_if_missing draw (some _) = pure tt
  set_code_if_missing draw none = set_code draw

  unfoldable pub ensure_defaults :
      CodeDraw → String → String → String → Option ℤ → Option String → Tx (Unit {0})
  unfolding set_code_if_missing set_code
  ensure_defaults draw secret mode title letters guide_url =
      if refuse_guide_url guide_url
      then raise (claim "guide URL must be https://... or a /path on the portal")
      else write_tx (do
        modify (set_optional "guide_url" guide_url)
        modify
            (set_optional "code_letters" (elim letters [ none ↦ none | some n ↦ some (py.str n) ]))
        modify (set_if_missing "secret" secret)
        code ← select (get_setting "code")
        set_code_if_missing draw code
        modify (set_if_missing "open" "1")
        modify (set_if_missing "mode" (if contains modes mode then mode else "both"))
        modify (λ db. if is_empty title then db else set_setting "title" title db))

  unfoldable pub rotate_code : CodeDraw → Tx String
  rotate_code draw = write_tx (do
    read ← select code_letters
    letters ← lift read
    modify (set_setting "code" (new_code draw letters))
    pure (new_code draw letters))

  unfoldable pub access_token : Db → String
  unfolding get_setting or_default normalize_code
  access_token db =
      py.hmac (or_default "" (get_setting "secret" db))
        (normalize_code (or_default "" (get_setting "code" db)))

  -- hmac.compare_digest refuses a text with a character that is not ASCII.
  unfoldable pub has_access : String → Db → Outcome CompareError Bool
  unfolding access_token is_ascii
  has_access cookie db =
      if is_empty cookie
      then ok false
      else if not (is_ascii cookie)
      then err type_error
      else ok (cookie == access_token db)

  unfoldable pub rotate_admin_token : String → Tx String
  rotate_admin_token token = do
    write_tx (modify (set_setting "admin_hash" (py.sha256 token)))
    pure token

  unfoldable pub is_admin_token : String → Db → Bool
  unfolding get_setting
  is_admin_token token db = elim (get_setting "admin_hash" db) [
    | none ↦ false
    | some stored ↦ not (is_empty stored) && (matches_token token && py.sha256 token == stored)
  ]
