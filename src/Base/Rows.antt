-- ===== src/Base/Rows.antt =====
-- Rows of a database table, with text columns: what a statement finds, updates and deletes, and
-- columns whose values are unique.
use Prim.Native.String.{String}
use mathlib.Core.Path.{◌≡◌, refl, ap}
use mathlib.Core.Logic.{inl, inr}
use mathlib.Core.Bool.{Bool, true, false, ◌||◌, ◌&&◌, not}
use mathlib.Core.Option.{Option, none, some}
use mathlib.Core.List.{List, [], ◌∷◌, ◌++◌}
use native.Mathlib.Omega.{arith}
use rodeo_cli.Base.Equality.{◌==◌, string_eq, if◌then◌else◌}
use rodeo_cli.Base.Lists.{keep, In}

module _ {A : Type 0} where
  -- UPDATE ... SET f WHERE p
  unfoldable pub update_where : (A → Bool) → (A → A) → List A → List A
  update_where p f [] = []
  update_where p f (x ∷ xs) = (if p x then f x else x) ∷ update_where p f xs

module _ {A : Type 0} (key : A → String) where
  -- Whether the column holds the value.
  unfoldable pub has : String → List A → Bool
  has k [] = false
  has k (x ∷ xs) = k == key x || has k xs

  -- The first row with the value in that column.
  unfoldable pub find_by : String → List A → Option A
  find_by k [] = none
  find_by k (x ∷ xs) = if k == key x then some x else find_by k xs

  -- No value stands twice in the column.
  unfoldable pub is_unique : List A → Bool
  is_unique [] = true
  is_unique (x ∷ xs) = not (has (key x) xs) && is_unique xs

  pub has-append : (k : String) (xs ys : List A) → has k (xs ++ ys) ≡ (has k xs || has k ys)
  unfolding has
  has-append k [] ys = refl
  has-append k (x ∷ xs) ys = ground (arith, has-append k xs ys)

  pub find_by-none : (k : String) (xs : List A) → has k xs ≡ false → find_by k xs ≡ none
  unfolding has find_by
  find_by-none k [] h = refl
  find_by-none k (x ∷ xs) h = ground (arith, find_by-none k xs)

  pub has_of_find_by-none : (k : String) (xs : List A) → find_by k xs ≡ none → has k xs ≡ false
  unfolding has find_by
  has_of_find_by-none k [] h = refl
  has_of_find_by-none k (x ∷ xs) h = ground (arith, has_of_find_by-none k xs)

  -- A row that is found has the value, and the column holds it.
  pub find_by-some :
      (k : String) (xs : List A) (x : A) → find_by k xs ≡ some x → (key x ≡ k) × (has k xs ≡ true)
  unfolding has find_by
  find_by-some k [] x h = ground arith
  find_by-some k (y ∷ xs) x h = ground (arith, find_by-some k xs x)

  pub find_by-append_absent :
      (k : String) (xs ys : List A) → has k xs ≡ false → find_by k (xs ++ ys) ≡ find_by k ys
  unfolding has find_by
  find_by-append_absent k [] ys h = refl
  find_by-append_absent k (x ∷ xs) ys h = ground (arith, find_by-append_absent k xs ys)

  pub find_by-append_present :
      (k : String) (xs ys : List A) (x : A) → find_by k xs ≡ some x → find_by k (xs ++ ys) ≡ some x
  unfolding find_by
  find_by-append_present k [] ys x h = ground arith
  find_by-append_present k (y ∷ xs) ys x h = ground (arith, find_by-append_present k xs ys x)

  pub is_unique-concat :
      (xs : List A) (x : A)
      → is_unique xs ≡ true
      → has (key x) xs ≡ false
      → is_unique (xs ++ x ∷ []) ≡ true
  unfolding is_unique has
  is_unique-concat [] x u h = refl
  is_unique-concat (y ∷ xs) x u h =
      ground (arith, is_unique-concat xs x, has-append (key y) xs (x ∷ []))

  pub has-keep :
      (p : A → Bool) (k : String) (xs : List A) → has k xs ≡ false → has k (keep p xs) ≡ false
  unfolding has
  has-keep p k [] h = refl
  has-keep p k (x ∷ xs) h = ground (arith, has-keep p k xs)

  pub is_unique-keep :
      (p : A → Bool) (xs : List A) → is_unique xs ≡ true → is_unique (keep p xs) ≡ true
  unfolding is_unique
  is_unique-keep p [] h = refl
  is_unique-keep p (x ∷ xs) h = ground (arith, is_unique-keep p xs, has-keep p (key x) xs)

  module _ (p : A → Bool) (f : A → A) (same : (x : A) → key (f x) ≡ key x) where
    -- An update that leaves the column alone leaves what it holds.
    pub has-update_where : (k : String) (xs : List A) → has k (update_where p f xs) ≡ has k xs
    unfolding has update_where
    has-update_where k [] = refl
    has-update_where k (x ∷ xs) = ground (arith, has-update_where k xs, same x)

    pub is_unique-update_where : (xs : List A) → is_unique (update_where p f xs) ≡ is_unique xs
    unfolding is_unique update_where
    is_unique-update_where [] = refl
    is_unique-update_where (x ∷ xs) = ground (
      arith,
      is_unique-update_where xs,
      same x,
      has-update_where (key x) xs,
      has-update_where (key (f x)) xs,
    )

    pub find_by-update_where :
        (k : String) (xs : List A) (x : A)
        → find_by k xs ≡ some x
        → find_by k (update_where p f xs) ≡ some (if p x then f x else x)
    unfolding find_by update_where
    find_by-update_where k [] x h = ground arith
    find_by-update_where k (y ∷ xs) x h = ground (arith, find_by-update_where k xs x, same y)

module _ {A : Type 0} (key : A → String) where
  -- An update of the rows with a value that no row has.
  pub update_where-absent :
      (f : A → A) (k : String) (xs : List A)
      → has key k xs ≡ false
      → update_where (λ x. k == key x) f xs ≡ xs
  unfolding has update_where
  update_where-absent f k [] h = refl
  update_where-absent f k (x ∷ xs) h = ground (arith, update_where-absent f k xs)

  -- The value of a row that is added to a column of unique values is new.
  pub concat-is_unique :
      (xs : List A) (x : A) → is_unique key (xs ++ x ∷ []) ≡ true → has key (key x) xs ≡ false
  unfolding is_unique has
  concat-is_unique [] x h = refl
  concat-is_unique (y ∷ xs) x h =
      ground (arith, concat-is_unique xs x, has-append key (key y) xs (x ∷ []))

  pub has_of_in : (x : A) (xs : List A) → In x xs → has key (key x) xs ≡ true
  unfolding has
  has_of_in x [] i = absurd i
  has_of_in x (y ∷ xs) (inl e) = ground (arith, ap key e)
  has_of_in x (y ∷ xs) (inr i) = ground (arith, has_of_in x xs i)

  -- Where the column is unique, a row is the one that is found.
  pub find_by-in :
      (x : A) (xs : List A) → is_unique key xs ≡ true → In x xs → find_by key (key x) xs ≡ some x
  unfolding find_by is_unique
  find_by-in x [] u i = absurd i
  find_by-in x (y ∷ xs) u (inl e) = ground (arith, ap key e)
  find_by-in x (y ∷ xs) u (inr i) = ground (arith, find_by-in x xs, has_of_in x xs i)

-- An update of the one row that `sel` finds, which sets another unique column.
module _ {A : Type 0} (sel key : A → String) (f : A → A) (k h : String) where
  has-set_one :
      (j : String) (xs : List A)
      → ((x : A) → key (f x) ≡ h)
      → has key j xs ≡ false
      → (j == h) ≡ false
      → has key j (update_where (λ x. k == sel x) f xs) ≡ false
  unfolding has update_where
  has-set_one j [] sets a n = refl
  has-set_one j (x ∷ xs) sets a n = ground (arith, has-set_one j xs sets, sets x)

  pub is_unique-set_one :
      (xs : List A)
      → ((x : A) → key (f x) ≡ h)
      → is_unique sel xs ≡ true
      → is_unique key xs ≡ true
      → has key h xs ≡ false
      → is_unique key (update_where (λ x. k == sel x) f xs) ≡ true
  unfolding is_unique update_where has
  is_unique-set_one [] sets s u a = refl
  is_unique-set_one (x ∷ xs) sets s u a = ground (
    arith,
    is_unique-set_one xs sets,
    sets x,
    has-set_one (key x) xs sets,
    update_where-absent sel f k xs,
  )

module _ {A : Type 0} (key : A → String) where
  pub in_of_find_by : (k : String) (x : A) (xs : List A) → find_by key k xs ≡ some x → In x xs
  unfolding find_by
  in_of_find_by k x [] h = cc
  in_of_find_by k x (y ∷ xs) h = ground (arith, in_of_find_by k x xs)

  -- Rows that a deletion by the column spares are still found, and the others are gone.
  pub find_by-keep :
      (p : String → Bool) (k : String) (xs : List A)
      → find_by key k (keep (λ x. p (key x)) xs) ≡ (if p k then find_by key k xs else none)
  unfolding find_by
  find_by-keep p k [] = ground arith
  find_by-keep p k (x ∷ xs) = ground (arith, find_by-keep p k xs)

  pub has-keep_by :
      (p : String → Bool) (k : String) (xs : List A)
      → has key k (keep (λ x. p (key x)) xs) ≡ (p k && has key k xs)
  unfolding has
  has-keep_by p k [] = ground arith
  has-keep_by p k (x ∷ xs) = ground (arith, has-keep_by p k xs)
