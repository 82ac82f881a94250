-- ===== src/Portal/Pin.antt =====
-- PINs of rodeo/portal/claims.py: which ones a new claim accepts, and how they are stored.
use Prim.Native.Char.{code}
use rodeo_cli.Base.{
  ℕ, suc, ◌+◌, ◌-◌, ◌%◌, String, ◌<>◌, Bool, false, ◌&&◌, ◌||◌, Option, none, some, List, [], ◌∷◌,
  ◌==◌, nat_eq, string_eq, contains, leb, if◌then◌else◌,
}
use rodeo_cli.Base.Lists.{length, all}
use rodeo_cli.Portal.Python.{Python}
use rodeo_cli.Portal.Text.{codes}

-- len(set(s))
unfoldable pub distinct : List ℕ → ℕ
distinct [] = 0
distinct (c ∷ s) = if contains s c then distinct s else suc (distinct s)

-- (int(b) - int(a)) % 10 for each neighbour b of a
unfoldable pub steps : List ℕ → List ℕ
steps [] = []
steps (a ∷ []) = []
steps (a ∷ b ∷ s) = ((b + 10 - a) % 10) ∷ steps (b ∷ s)

abbrev pub pin_form : String
pin_form = "The PIN must be 6 digits."

abbrev pub pin_obvious : String
pin_obvious = "That PIN is too easy to guess. Choose a less obvious one."

abbrev common_pins : List String
common_pins =
    "123123" ∷ "121212" ∷ "112233" ∷ "111222" ∷ "123321" ∷ "102030" ∷ "159753" ∷ "147258" ∷ "258369"
    ∷ "696969" ∷ "131313" ∷ "101010" ∷ "202020" ∷ "456456" ∷ "789789" ∷ "654321" ∷ "100000"
    ∷ "999999" ∷ "111000" ∷ "000111" ∷ "246810" ∷ "135790" ∷ "142536" ∷ "741852" ∷ []

-- The three pairs are one, the halves are one, or each pair is one digit twice.
unfoldable pub is_repeated : List ℕ → Bool
is_repeated (a ∷ b ∷ c ∷ d ∷ e ∷ f ∷ []) =
    (a == c && b == d && c == e && d == f)
    || (a == d && b == e && c == f)
    || (a == b && c == d && e == f)
is_repeated _ = false

-- The second test of `pin_problem`, on the characters and their values.
unfoldable pub is_simple : String → List ℕ → Bool
is_simple pin values =
    leb (distinct (codes pin)) 2
    || all (λ s. s == 1) (steps values)
    || all (λ s. s == 9) (steps values)
    || contains common_pins pin

module _ (py : Python) where
  -- The values of the digits of a text, if all its characters are decimal digits.
  unfoldable pub decimals : String → Option (List ℕ)
  decimals String.[] = some []
  decimals (String.◌∷◌ c s) = elim (py.decimal c) [
    | none ↦ none
    | some d ↦ elim (decimals s) [ none ↦ none | some ds ↦ some (d ∷ ds) ]
  ]

  -- re.fullmatch(r"\d{6}", pin), with the values of the digits
  unfoldable pub six_digits : String → Option (List ℕ)
  six_digits pin = elim (decimals pin) [
    | none ↦ none
    | some ds ↦ if length ds == 6 then some ds else none
  ]

  unfoldable pub pin_problem : String → Option String
  pin_problem pin = elim (six_digits pin) [
    | none ↦ some pin_form
    | some values ↦
        if is_simple pin values
        then some pin_obvious
        else if is_repeated (codes pin)
        then some pin_obvious
        else none
  ]

  unfoldable pub hash_pin : String → py.Bytes → String
  hash_pin pin salt = py.hex salt <> (":" <> py.scrypt pin salt)

-- stored.split(":", 1), if there is a colon
unfoldable pub split_colon : String → Option (String × String)
split_colon String.[] = none
split_colon (String.◌∷◌ c s) =
    let rest = split_colon s in
    if code c == 58
    then some (String.[], s)
    else (elim rest [ none ↦ none | some (a, b) ↦ some (String.◌∷◌ c a, b) ])

module _ (py : Python) where
  unfoldable pub check_pin : String → Option String → Bool
  check_pin pin none = false
  check_pin pin (some stored) = elim (split_colon stored) [
    | none ↦ false
    | some (salt, digest) ↦ py.scrypt pin (py.from_hex salt) == digest
  ]
