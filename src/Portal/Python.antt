-- ===== src/Portal/Python.antt =====
-- What the portal takes from the interpreter and its cryptographic libraries, as parameters: the
-- Unicode tables, the forms of numbers, the hash functions and byte strings.
use Prim.Native.Char.{Char}
use rodeo_cli.Base.{ℕ, ℤ, String, Option}

pub record Python : Type 1 where
  pub lower : String → String
  pub upper : String → String
  -- The value of a decimal digit, in any script: what `\d` accepts and `int` reads.
  pub decimal : Char → Option ℕ
  pub int : String → Option ℤ
  pub str : ℤ → String
  pub repr : String → String
  -- hashlib.sha256(value.encode()).hexdigest()
  pub sha256 : String → String
  -- hmac.new(key.encode(), message.encode(), hashlib.sha256).hexdigest()
  pub hmac : String → String → String
  pub Bytes : Type 0
  pub hex : Bytes → String
  pub from_hex : String → Bytes
  -- hashlib.scrypt(pin.encode(), salt=salt, n=2**14, r=8, p=1).hex()
  pub scrypt : String → Bytes → String
