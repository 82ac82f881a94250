-- ===== src/Config/Substring.antt =====
-- Python's `in` and `replace` on texts.
use Prim.Native.Char.{code}
use rodeo_cli.Base.{
  ℕ, zero, suc, ◌-◌, String, ◌<>◌, Bool, true, false, ◌||◌, Option, none, some, ◌==◌, nat_eq,
  if◌then◌else◌,
}

-- The text behind the prefix p, if s starts with p.
unfoldable pub after_prefix : String → String → Option String
after_prefix String.[] s = some s
after_prefix (String.◌∷◌ c p) String.[] = none
after_prefix (String.◌∷◌ c p) (String.◌∷◌ d s) =
    let rest = after_prefix p s in if code c == code d then rest else none

-- s.startswith(p)
unfoldable pub starts_with : String → String → Bool
starts_with p s = elim (after_prefix p s) [ none ↦ false | some r ↦ true ]

-- p in s
unfoldable pub is_in : String → String → Bool
unfolding starts_with after_prefix
is_in p String.[] = starts_with p String.[]
is_in p (String.◌∷◌ c s) = starts_with p (String.◌∷◌ c s) || is_in p s

unfoldable pub len : String → ℕ
len String.[] = 0
len (String.◌∷◌ c s) = suc (len s)

-- The rest of s behind its first `skip` characters, each occurrence of `old` in it replaced.
unfoldable pub replace_behind : ℕ → String → String → String → String
replace_behind skip old new String.[] = String.[]
replace_behind (suc skip) old new (String.◌∷◌ c s) = replace_behind skip old new s
replace_behind zero old new (String.◌∷◌ c s) =
    let replaced = new <> replace_behind (len old - 1) old new s in
    let kept = String.◌∷◌ c (replace_behind zero old new s) in
    if starts_with old (String.◌∷◌ c s) then replaced else kept

-- s.replace(old, new), for an `old` that is not empty
unfoldable pub replace : String → String → String → String
unfolding replace_behind len starts_with after_prefix
replace old new s = replace_behind zero old new s
