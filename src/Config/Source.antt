-- ===== src/Config/Source.antt =====
-- Where a remote host gets its rodeo-cli from (rodeo/install_source.py). The environment is a
-- record; the release tag, which git or the package metadata tell, is an argument.
use Prim.Native.Char.{code}
use rodeo_cli.Base.{
  ℕ, String, ◌<>◌, Bool, false, not, ◌&&◌, ◌||◌, Option, none, some, List, [], ◌∷◌, Outcome, ok,
  err, ◌==◌, nat_eq, string_eq, contains, if◌then◌else◌, ◌>>=◌,
}
use rodeo_cli.Base.Lists.{all}
use rodeo_cli.Base.Dict.{Dict}
use rodeo_cli.Portal.Python.{Python}
use rodeo_cli.Portal.Text.{is_empty, strip, codes, at_end, is_alphanumeric}
use rodeo_cli.Config.Value.{Value, get, text_or}
use rodeo_cli.Config.Substring.{is_in, replace, after_prefix}

pub data SourceError : Type 0 where
  config_error : String → SourceError

-- The variables RODEO_REPO and RODEO_INSTALL_URL_TEMPLATE; unset is the empty text.
pub record Environment : Type 0 where
  pub repo : String
  pub url_template : String

abbrev pub default_template : String
default_template = "https://raw.githubusercontent.com/avaleror/rodeo-cli/{ref}/install.sh"

abbrev pub default_ref : String
default_ref = "main"

unfoldable pub repo_override : Environment → Option String
repo_override env = let s = strip env.repo in if is_empty s then none else some s

unfoldable pub repo_url : Environment → String
unfolding repo_override
repo_url env = elim (repo_override env) [
  | none ↦ "https://github.com/avaleror/rodeo-cli.git"
  | some s ↦ s
]

-- `([^/]+?)(?:\.git)?/?$`: the shortest name that one of the endings follows.
unfoldable pub repo_name : String → Option String
repo_name String.[] = none
repo_name (String.◌∷◌ c s) =
    let rest = repo_name s in
    if code c == 47
    then none
    else if contains ("" ∷ "\n" ∷ ".git" ∷ ".git\n" ∷ "/" ∷ "/\n" ∷ ".git/" ∷ ".git/\n" ∷ []) s
    then some (String.◌∷◌ c "")
    else (elim rest [ none ↦ none | some n ↦ some (String.◌∷◌ c n) ])

-- `([^/]+)/`, and the name behind it.
unfoldable pub owner_name : String → Option (String × String)
owner_name String.[] = none
owner_name (String.◌∷◌ c s) =
    let rest = owner_name s in
    if code c == 47
    then (elim (repo_name s) [ none ↦ none | some n ↦ some ("", n) ])
    else (elim rest [ none ↦ none | some (o, n) ↦ some (String.◌∷◌ c o, n) ])

unfoldable pub with_owner : Option (String × String) → Option (String × String)
with_owner none = none
with_owner (some (o, n)) = if is_empty o then none else some (o, n)

-- _GITHUB_RE.match(s): owner and name.
unfoldable pub match_github : String → Option (String × String)
unfolding with_owner owner_name repo_name after_prefix
match_github s = elim (after_prefix "https://github.com/" s) [
  | some r ↦ with_owner (owner_name r)
  | none ↦ elim (after_prefix "git@github.com:" s) [
    | none ↦ none
    | some r ↦ with_owner (owner_name r)
  ]
]

ref_body : List ℕ → Bool
ref_body [] = false
ref_body (c ∷ s) =
    is_alphanumeric c && all (λ d. is_alphanumeric d || contains (46 ∷ 95 ∷ 47 ∷ 45 ∷ []) d) s

-- _REF_RE.match(s)
unfoldable pub matches_ref : String → Bool
unfolding codes at_end ref_body is_alphanumeric
matches_ref s = at_end ref_body (codes s)

module _ (py : Python) where
  unfoldable pub install_url_template : Environment → Outcome SourceError String
  unfolding is_in repo_override match_github
  install_url_template env =
      let explicit = strip env.url_template in
      if not (is_empty explicit)
      then (if is_in "{ref}" explicit
          then ok explicit
          else err (
              config_error ("RODEO_INSTALL_URL_TEMPLATE must contain {ref}: " <> py.repr explicit)))
      else (elim (match_github (elim (repo_override env) [ none ↦ "" | some s ↦ s ])) [
        | none ↦ ok default_template
        | some (owner, name) ↦ ok (
            "https://raw.githubusercontent.com/"
            <> (owner <> ("/" <> (name <> "/{ref}/install.sh"))))
      ])

  unfoldable pub install_url_for_ref : Environment → String → Outcome SourceError String
  unfolding replace
  install_url_for_ref env ref = do t ← install_url_template env; ok (replace "{ref}" ref t)

  unfoldable pub validate_ref : String → Outcome SourceError String
  unfolding is_in
  validate_ref ref =
      let clean = strip ref in
      if is_empty clean || (is_in ".." clean || not (matches_ref clean))
      then err (
          config_error (
            "invalid rodeo-cli ref "
            <> (py.repr ref <> ": use a branch, tag or SHA (letters, digits, '.', '_', '-', '/')")))
      else ok clean

  -- `str(ref or cfg.get("ref") or "").strip() or release_ref()`
  unfoldable pub chosen_ref : Option String → Dict Value → Option String → Option String
  chosen_ref release cfg ref =
      let given : String = elim ref [ none ↦ "" | some s ↦ s ] in
      let s = strip (if is_empty given then text_or py "" (get "ref" cfg) else given) in
      if is_empty s then release else some s

  unfoldable pub validate_chosen : Option String → Outcome SourceError (Option String)
  validate_chosen none = ok none
  validate_chosen (some s) = do clean ← validate_ref s; ok (some clean)

  -- The URL of the installer and the ref to check out, if any.
  unfoldable pub resolve_install_source :
      Environment
      → Option String
      → Dict Value
      → Option String
      → Outcome SourceError (String × Option String)
  unfolding chosen_ref validate_chosen
  resolve_install_source env release cfg ref = do
    chosen ← validate_chosen (chosen_ref release cfg ref)
    let configured = strip (text_or py "" (get "install_url" cfg))
    if not (is_empty configured) then ok (configured, chosen) else (do
      url ← install_url_for_ref env (elim chosen [ none ↦ default_ref | some r ↦ r ])
      ok (url, chosen))

  -- The shell text that puts rodeo on the PATH; `quote` is shlex.quote.
  unfoldable pub bootstrap_fragment :
      (String → String) → Environment → String → Option String → String
  unfolding repo_override
  bootstrap_fragment quote env install_url ref =
      let url = quote install_url in
      let bash : String = elim (repo_override env) [
        | none ↦ "bash"
        | some repo ↦ "RODEO_REPO=" <> (quote repo <> " bash")
      ] in
      let r : String = elim ref [ none ↦ "" | some r ↦ r ] in
      let install =
        if is_empty r
        then "if ! command -v rodeo >/dev/null 2>&1; then curl -fsSL "
          <> (url <> (" | " <> (bash <> "; fi; ")))
        else "curl -fsSL "
          <> (url <> (" | " <> (bash <> (" -s -- --ref " <> (quote r <> "; "))))) in
      install <> "command -v rodeo >/dev/null"
