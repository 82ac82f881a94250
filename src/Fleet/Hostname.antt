-- ===== src/Fleet/Hostname.antt =====
-- The patterns of rodeo/fleet/inventory.py that the portal's text module does not have.
use rodeo_cli.Base.{
  ℕ, String, Bool, true, false, ◌&&◌, ◌||◌, List, [], ◌∷◌, ◌==◌, nat_eq, leb, if◌then◌else◌,
}
use rodeo_cli.Base.Lists.{length, all}
use rodeo_cli.Portal.Text.{codes, at_end, is_letter, is_alphanumeric}

-- The parts between the dots.
unfoldable pub dotted : List ℕ → List (List ℕ)
dotted [] = [] ∷ []
dotted (c ∷ s) =
    if c == 46
    then [] ∷ dotted s
    else (elim (dotted s) [ [] ↦ (c ∷ []) ∷ [] | p ∷ r ↦ (c ∷ p) ∷ r ])

unfoldable pub ends_alphanumeric : List ℕ → Bool
ends_alphanumeric [] = false
ends_alphanumeric (c ∷ []) = is_alphanumeric c
ends_alphanumeric (c ∷ d ∷ s) = ends_alphanumeric (d ∷ s)

-- `[A-Za-z0-9](?:[A-Za-z0-9-]{0,61}[A-Za-z0-9])?`
unfoldable pub dns_label : List ℕ → Bool
dns_label [] = false
dns_label (c ∷ s) =
    is_alphanumeric c
    && ends_alphanumeric (c ∷ s)
    && all (λ d. is_alphanumeric d || d == 45) s
    && leb (length s) 62

unfoldable pub dns_labels : List (List ℕ) → Bool
dns_labels [] = false
dns_labels (top ∷ []) = leb 2 (length top) && leb (length top) 63 && all is_letter top
dns_labels (l ∷ m ∷ r) = dns_label l && dns_labels (m ∷ r)

unfoldable pub has_dot : List (List ℕ) → Bool
has_dot (a ∷ b ∷ r) = true
has_dot _ = false

hostname_body : List ℕ → Bool
hostname_body s =
    leb 1 (length s) && leb (length s) 253 && has_dot (dotted s) && dns_labels (dotted s)

-- _HOSTNAME_RE.match(s)
unfoldable pub matches_hostname : String → Bool
unfolding hostname_body dotted dns_labels dns_label has_dot ends_alphanumeric
matches_hostname s = at_end hostname_body (codes s)

-- re.fullmatch(r"[A-Za-z0-9_]+", s)
unfoldable pub matches_secret_name : String → Bool
unfolding codes is_alphanumeric
matches_secret_name s =
    leb 1 (length (codes s)) && all (λ c. is_alphanumeric c || c == 95) (codes s)
