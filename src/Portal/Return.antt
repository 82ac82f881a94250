-- ===== src/Portal/Return.antt =====
-- From `claim_open` to `recover` (rodeo/portal/claims.py) with the same email and PIN.
use Prim.Native.Char.{code}
use Prim.Native.String.append
use rodeo_cli.Base.{
  ◌≡◌, refl, ◌∙◌, sym, ap, ℕ, String, ◌<>◌, Bool, true, false, some, List, ok, ◌==◌, ==_refl,
  nat_eq, string_eq, if◌then◌else◌, arith,
}
use rodeo_cli.Base.Rows.{has, has_of_in}
use rodeo_cli.Portal.Python.{Python}
use rodeo_cli.Portal.Text.{prefix, strip}
use rodeo_cli.Portal.Db.{Db, Lab, lab_key, claim_token, get_setting}
use rodeo_cli.Portal.Db.Valid.{IsValid}
use rodeo_cli.Portal.Db.Insert.{inserted, IsNew, inserted-IsValid, find_email-inserted}
use rodeo_cli.Portal.Tx.{Connection}
use rodeo_cli.Portal.Pin.{six_digits, hash_pin, split_colon, check_pin}
use rodeo_cli.Portal.Settings.{settings, code_matches}
use rodeo_cli.Portal.Students.{Draw, normalize_email, new_claim, claim_open, recover}
use rodeo_cli.Portal.Claiming.{row_for}
use rodeo_cli.Portal.Assignment.{claim_open-IsAssigned}
use rodeo_cli.Portal.Recovery.{IsAsked, recover_right}

-- No character is a colon.
unfoldable pub has_no_colon : String → Bool
has_no_colon String.[] = true
has_no_colon (String.◌∷◌ c s) = if code c == 58 then false else has_no_colon s

-- What the program relies on of `bytes.hex` and `bytes.fromhex`.
pub record IsHex (py : Python) : Type 0 where
  pub round_trip : (b : py.Bytes) → py.from_hex (py.hex b) ≡ b
  pub no_colon : (b : py.Bytes) → has_no_colon (py.hex b) ≡ true

split_colon_append :
    (s t : String) → has_no_colon s ≡ true → split_colon (s <> (":" <> t)) ≡ some (s, t)
unfolding split_colon has_no_colon nat_eq
split_colon_append String.[] t h =
    rw (append.nil (":" <> t), append.cons ":" "" t, append.nil t) refl
split_colon_append (String.◌∷◌ c s) t h =
    let rest = split_colon_append s t (ground (arith, h)) in
    rw append.cons (ground (arith, h, rest))

-- The row of a new claim is one that `recover` looks at.
new_claim-IsAsked :
    (py : Python) (draw : Draw py) (code email e name pin : String) (l : Lab) (db : Db)
    → normalize_email py email ≡ ok e
    → ((settings db).mode == "roster") ≡ false
    → code_matches py code (settings db).code ≡ true
    → IsNew (new_claim py draw l.id e name pin) db
    → IsAsked py code email
        (inserted (new_claim py draw l.id e name pin) db)
        e
        (new_claim py draw l.id e name pin)
unfolding new_claim
new_claim-IsAsked py draw code email e name pin l db p m a n = record {
  normal = p;
  not_roster = unfold settings get_setting in m;
  code_right = unfold settings get_setting in a;
  found = find_email-inserted (new_claim py draw l.id e name pin) db n;
  is_open = ==_refl {A = String} "open";
}

module _ (py : Python) (hex : IsHex py) where
  -- A stored PIN accepts the PIN that it was made from.
  pub check_pin-hash_pin :
      (pin : String) (salt : py.Bytes) → check_pin py pin (some (hash_pin py pin salt)) ≡ true
  unfolding check_pin hash_pin
  check_pin-hash_pin pin salt =
      let split = split_colon_append (py.hex salt) (py.scrypt pin salt) (hex.no_colon salt) in
      rw (split, check_pin, hex.round_trip salt) (==_refl (py.scrypt pin salt))

  module _ (draw again : Draw py) (code email name pin : String) (digits : List ℕ) where
    -- After a claim, a call of `recover` with the same code, email and PIN returns the lab that the
    -- claim returned, with the token that it draws. This is so where the constraints held before,
    -- the PIN has six digits, and the new token's hash is in no claim.
    pub claim_open-recover :
        (k : Connection) (r : String × String)
        → six_digits py pin ≡ some digits
        → IsValid k.db
        → (claim_open py draw code email name pin k).0 ≡ ok r
        → has claim_token
            (py.sha256 again.token)
            (claim_open py draw code email name pin k).1.db.claims
          ≡ false
        → (recover py again code email pin (claim_open py draw code email name pin k).1).0
          ≡ ok (again.token, r.1)
    claim_open-recover k r six valid h fresh =
        let a = claim_open-IsAssigned py draw code email name pin k r h in
        let c = row_for py draw code email name pin a.address a.lab in
        let there = has_of_in lab_key a.lab k.db.labs a.offer.listed in
        let asked : IsAsked py code email (inserted c k.db) a.address c =
          new_claim-IsAsked py draw code email a.address (prefix 80 (strip name)) pin a.lab k.db
            a.normal a.not_roster a.code_right a.is_new in
        let v : IsValid (inserted c k.db) =
          unfold new_claim in inserted-IsValid c k.db valid a.is_new there in
        (recover_right py code email again pin digits six
          (claim_open py draw code email name pin k).1 a.address c (rw a.effect asked)
          (rw a.effect v) fresh (unfold new_claim in refl)
          (unfold new_claim in check_pin-hash_pin pin draw.salt)).0
        ∙ (unfold new_claim in ap (λ (p : String × String). ok (again.token, p.1)) (sym a.result))
