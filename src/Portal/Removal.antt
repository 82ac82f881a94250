-- ===== src/Portal/Removal.antt =====
-- `remove_labs` of rodeo/portal/claims.py, forced and not forced.
use rodeo_cli.Base.{
  ◌<>◌, ◌≡◌, ◌==◌, ◌||◌, ◌&&◌, ap, suc, ◌≢◌, refl, ◌∙◌, String, Bool, true, false, not, none, List,
  [], ◌∷◌, ok, err, ◌⊎◌, inl, inr, string_eq, contains, map, if◌then◌else◌, arith,
}
use rodeo_cli.Base.Lists.{length, keep, keep-nil, any}
use rodeo_cli.Base.Dict
use rodeo_cli.Base.Dict.{Dict, lookup, lookup-erase}
use rodeo_cli.Base.Rows.{has, find_by, find_by-keep, has-keep_by}
use rodeo_cli.Portal.Db.{Db, Lab, Claim, claim, lab_key, claim_lab, references_hold}
use rodeo_cli.Portal.Db.Valid.{IsValid}
use rodeo_cli.Portal.Tx.{Connection, written, write_tx, ◌>>=◌}
use rodeo_cli.Portal.Instructor.{
  ord_before, insert_sorted, sort_by, join_comma, erase_all, taken_of, found_of, delete_labs,
  refuse_claimed, remove_body, remove_labs,
}

lookup-erase_all :
    (ids : List String) (k : String) (d : Dict String)
    → lookup k (erase_all ids d) ≡ (if contains ids k then none else lookup k d)
unfolding erase_all
lookup-erase_all [] k d = refl
lookup-erase_all (id ∷ ids) k d =
    ground (arith, lookup-erase_all ids k (Dict.erase id d), lookup-erase k id d)

-- Claims on labs that stay are on labs that are there.
references-keep :
    (ids : List String) (labs : List Lab) (rows : List Claim)
    → references_hold labs rows ≡ true
    → references_hold
        (keep (λ l. not (contains ids l.id)) labs)
        (keep (λ c. not (contains ids c.lab_id)) rows)
      ≡ true
unfolding references_hold
references-keep ids labs [] h = refl
references-keep ids labs (c ∷ rows) h = ground (
  arith,
  references-keep ids labs rows,
  has-keep_by lab_key (λ k. not (contains ids k)) c.lab_id labs,
)

has-insert_sorted :
    (before : Lab → Lab → Bool) (j : String) (a : Lab) (rows : List Lab)
    → has lab_key j (insert_sorted before a rows) ≡ (j == a.id || has lab_key j rows)
unfolding insert_sorted has
has-insert_sorted before j a [] = refl
has-insert_sorted before j a (l ∷ rows) = ground (arith, has-insert_sorted before j a rows)

length-insert_sorted :
    (before : Lab → Lab → Bool) (a : Lab) (rows : List Lab)
    → length (insert_sorted before a rows) ≡ suc (length rows)
unfolding insert_sorted
length-insert_sorted before a [] = refl
length-insert_sorted before a (l ∷ rows) = ground (arith, length-insert_sorted before a rows)

length-map : (f : Lab → String) (rows : List Lab) → length (map f rows) ≡ length rows
length-map f [] = refl
length-map f (l ∷ rows) = ap suc (length-map f rows)

contains-map : (j : String) (rows : List Lab) → contains (map lab_key rows) j ≡ has lab_key j rows
unfolding has
contains-map j [] = refl
contains-map j (l ∷ rows) = ground (arith, contains-map j rows)

has-sort_by :
    (before : Lab → Lab → Bool) (j : String) (rows : List Lab)
    → has lab_key j (sort_by before rows) ≡ has lab_key j rows
unfolding sort_by has
has-sort_by before j [] = refl
has-sort_by before j (l ∷ rows) =
    ground (arith, has-insert_sorted before j l (sort_by before rows), has-sort_by before j rows)

length-sort_by :
    (before : Lab → Lab → Bool) (rows : List Lab) → length (sort_by before rows) ≡ length rows
unfolding sort_by
length-sort_by before [] = refl
length-sort_by before (l ∷ rows) =
    length-insert_sorted before l (sort_by before rows) ∙ ap suc (length-sort_by before rows)

module _ (ids : List String) (db : Db) where
  abbrev pub without_labs : Db
  without_labs = record db {
    claims = keep (λ c. not (contains ids c.lab_id)) db.claims;
    progress = erase_all ids db.progress;
    labs = keep (λ l. not (contains ids l.id)) db.labs;
  }

  -- After the deletions a listed lab has no row in any table, and all of the others is as before.
  pub record IsRemoved (after : Db) : Type 0 where
    pub labs :
        (k : String)
        → find_by lab_key k after.labs
          ≡ (if contains ids k then none else find_by lab_key k db.labs)
    pub claims :
        (k : String)
        → find_by claim_lab k after.claims
          ≡ (if contains ids k then none else find_by claim_lab k db.claims)
    pub progress :
        (k : String)
        → lookup k after.progress ≡ (if contains ids k then none else lookup k db.progress)
    pub settings : after.settings ≡ db.settings

  -- The ids are those of the listed labs that were there, as many as there are rows.
  pub record IsFound (found : List String) : Type 0 where
    pub members : (j : String) → contains found j ≡ (contains ids j && has lab_key j db.labs)
    pub once : length found ≡ length (keep (λ l. contains ids l.id) db.labs)

  found_of-IsFound : IsFound (found_of ids db)
  unfolding found_of
  found_of-IsFound =
      let rows : List Lab = keep (λ l. contains ids l.id) db.labs in
      record {
        members = λ j.
            contains-map j (sort_by ord_before rows)
            ∙ has-sort_by ord_before j rows
            ∙ has-keep_by lab_key (contains ids) j db.labs;
        once = length-map lab_key (sort_by ord_before rows) ∙ length-sort_by ord_before rows;
      }

  without_labs-IsRemoved : IsRemoved without_labs
  without_labs-IsRemoved = record {
    labs = λ k. find_by-keep lab_key (λ j. not (contains ids j)) k db.labs ∙ ground arith;
    claims = λ k. find_by-keep claim_lab (λ j. not (contains ids j)) k db.claims ∙ ground arith;
    progress = λ k. lookup-erase_all ids k db.progress;
    settings = refl;
  }

  delete_labs_lem : IsValid db → delete_labs ids db ≡ ok without_labs
  unfolding delete_labs
  delete_labs_lem v = ground (arith, references-keep ids db.labs db.claims v.references)

insert_sorted-ne-nil :
    {A : Type 0} (before : A → A → Bool) (a : A) (l : List A) → insert_sorted before a l ≢ []
unfolding insert_sorted
insert_sorted-ne-nil before a [] h = cc
insert_sorted-ne-nil before a (b ∷ l) h = ground arith

taken_of-nil :
    (ids : List String) (db : Db)
    → any (λ c. contains ids (claim_lab c)) db.claims ≡ false
    → taken_of ids db ≡ []
unfolding taken_of sort_by
taken_of-nil ids db h = rw (keep-nil (λ c. contains ids (claim_lab c)) db.claims h)

map-keep-ne-nil :
    {A B : Type 0} (p : A → Bool) (f : A → B) (xs : List A)
    → any p xs ≡ true
    → map f (keep p xs) ≢ []
map-keep-ne-nil p f [] h = cc
map-keep-ne-nil p f (x ∷ xs) h = ground (arith, map-keep-ne-nil p f xs)

sort_by-ne-nil : {A : Type 0} (before : A → A → Bool) (l : List A) → l ≢ [] → sort_by before l ≢ []
unfolding sort_by
sort_by-ne-nil before [] h = h
sort_by-ne-nil before (a ∷ l) h = insert_sorted-ne-nil before a (sort_by before l)

taken_of-ne-nil :
    (ids : List String) (db : Db)
    → any (λ c. contains ids (claim_lab c)) db.claims ≡ true
    → taken_of ids db ≢ []
unfolding taken_of
taken_of-ne-nil ids db h = sort_by-ne-nil _ _ (map-keep-ne-nil _ claim_lab db.claims h)

refuse_claimed-ne-nil :
    (labs : List String) (k : Connection)
    → labs ≢ []
    → refuse_claimed labs k ≡ (err (claim ("claimed by a student: " <> join_comma labs)), k)
unfolding refuse_claimed ◌>>=◌
refuse_claimed-ne-nil [] k h = absurd (h refl)
refuse_claimed-ne-nil (lab ∷ labs) k h = refl

module _ (id : String) (ids : List String) (k : Connection) where
  abbrev listed : List String
  listed = id ∷ ids

  refuse_nothing :
      (force : Bool) → taken_of listed k.db ≡ [] → (if force then [] else taken_of listed k.db) ≡ []
  refuse_nothing true e = refl
  refuse_nothing false e = e

  remove_lem :
      IsValid k.db
      → (force : Bool) → (if force then [] else taken_of listed k.db) ≡ []
      → remove_labs listed force k ≡ (
        ok (found_of listed k.db),
        record { db = without_labs listed k.db; saved = without_labs listed k.db },
      )
  remove_lem v force e =
      unfold remove_labs remove_body refuse_claimed write_tx ◌>>=◌ written in
      rw (e, delete_labs_lem listed k.db v)

  -- For a list that is not empty, where the constraints hold: a forced call, and any call while no listed lab is claimed, removes
  -- the labs: it returns the ids that were there, and the tables are those of `IsRemoved`.
  pub remove_labs-IsRemoved :
      (force : Bool)
      → IsValid k.db
      → (force ≡ true) ⊎ (any (λ c. contains listed (claim_lab c)) k.db.claims ≡ false)
      → (ids : List String) × ((remove_labs listed force k).0 ≡ ok ids)
        × IsFound listed k.db ids
        × IsRemoved listed k.db (remove_labs listed force k).1.db
  remove_labs-IsRemoved force v q = elim q [
    | inl e ↦
        rw (e, remove_lem v true refl)
          (_, refl, found_of-IsFound listed k.db, without_labs-IsRemoved listed k.db)
    | inr e ↦
        rw (remove_lem v force (refuse_nothing force (taken_of-nil listed k.db e)))
          (_, refl, found_of-IsFound listed k.db, without_labs-IsRemoved listed k.db)
  ]

  -- For a list that is not empty: a call that is not forced, while a listed lab is claimed, is refused and removes nothing.
  pub remove_labs_refused :
      any (λ c. contains listed (claim_lab c)) k.db.claims ≡ true
      → ((remove_labs listed false k).0
          ≡ err (claim ("claimed by a student: " <> join_comma (taken_of listed k.db))))
        × ((remove_labs listed false k).1.db ≡ k.db)
  remove_labs_refused h =
      let s =
        refuse_claimed-ne-nil (taken_of listed k.db) (record k { saved = k.db })
          (taken_of-ne-nil listed k.db h) in
      unfold remove_labs remove_body write_tx ◌>>=◌ in rw s (refl, refl)
