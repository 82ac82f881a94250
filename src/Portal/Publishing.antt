-- ===== src/Portal/Publishing.antt =====
-- `import_labs` of rodeo/portal/claims.py, record by record, and a second publishing of the same.
use rodeo_cli.Base.{
  ◌≡◌, ==→≡, refl, ◌∙◌, sym, ap, ℕ, suc, ℤ, pos, String, true, false, Option, none, some, List, [],
  ◌∷◌, ◌++◌, ok, inl, inr, Bool-cases, ◌==◌, string_eq, if◌then◌else◌, arith,
}
use rodeo_cli.Base.Lists.{length, all}
use rodeo_cli.Base.Rows.{has, find_by, update_where}
use rodeo_cli.Portal.Python.{Python}
use rodeo_cli.Portal.Text.{matches_lab_id}
use rodeo_cli.Portal.Db.{Db, Lab, lab_key, upsert_lab}
use rodeo_cli.Portal.Tx.{Connection, write_tx, ◌>>=◌}
use rodeo_cli.Portal.Instructor.{Published, lab_of, import_rows, import_labs}

find_by-replace_ne :
    (l : Lab) (k : String) (labs : List Lab)
    → (k == l.id) ≡ false
    → find_by lab_key k (update_where (λ (m : Lab). l.id == m.id) (λ _. l) labs)
      ≡ find_by lab_key k labs
unfolding find_by update_where
find_by-replace_ne l k [] n = refl
find_by-replace_ne l k (m ∷ labs) n = ground (arith, find_by-replace_ne l k labs)

find_by-replace_self :
    (l : Lab) (labs : List Lab)
    → has lab_key l.id labs ≡ true
    → find_by lab_key l.id (update_where (λ (m : Lab). l.id == m.id) (λ _. l) labs) ≡ some l
unfolding has find_by update_where
find_by-replace_self l [] h = cc
find_by-replace_self l (m ∷ labs) h = ground (arith, find_by-replace_self l labs)

find_by-concat :
    (l : Lab) (k : String) (labs : List Lab)
    → has lab_key l.id labs ≡ false
    → find_by lab_key k (labs ++ l ∷ []) ≡ (if k == l.id then some l else find_by lab_key k labs)
unfolding has find_by
find_by-concat l k [] h = refl
find_by-concat l k (m ∷ labs) h = ground (arith, find_by-concat l k labs)

find_by-upsert_lab :
    (l : Lab) (k : String) (db : Db)
    → find_by lab_key k (upsert_lab l db).labs
      ≡ (if k == l.id then some l else find_by lab_key k db.labs)
find_by-upsert_lab l k db = elim (Bool-cases (has lab_key l.id db.labs)) [
  | inr new ↦ unfold upsert_lab in rw new (find_by-concat l k db.labs new)
  | inl old ↦ elim (Bool-cases (k == l.id)) [
    | inl same ↦
        unfold upsert_lab in
        rw (old, same) (rw (==→≡ k l.id same) (find_by-replace_self l db.labs old))
    | inr other ↦ unfold upsert_lab in rw (old, other) (find_by-replace_ne l k db.labs other)
  ]
]

-- The place of a record: its order, or where it stands in the list.
abbrev pub place_of : ℕ → Option ℤ → ℤ
place_of i none = pos i
place_of i (some n) = n

-- The row of the last record with an id.
abbrev pub last_published : ℕ → List Published → String → Option Lab
last_published i [] k = none
last_published i (p ∷ labs) k = elim (last_published (suc i) labs k) [
  | some l ↦ some l
  | none ↦
      if k == p.id
      then some
          (record { id = k; ord = place_of i p.ord; data_json = p.data_json; ready = p.ready })
      else none
]

abbrev pub or_else : {A : Type 0} → Option A → Option A → Option A
or_else none b = b
or_else (some a) b = some a

or_else_idem : {A : Type 0} (a b : Option A) → or_else a (or_else a b) ≡ or_else a b
or_else_idem none b = refl
or_else_idem (some a) b = refl

module _ (py : Python) where
  -- The tables after the loop, where every id is accepted.
  published : ℕ → List Published → Db → Db
  published i [] db = db
  published i (p ∷ labs) db = published (suc i) labs (upsert_lab (lab_of i p) db)

  import_rows-accepted :
      (i : ℕ) (labs : List Published) (k : Connection)
      → all (λ p. matches_lab_id p.id) labs ≡ true
      → import_rows py i labs k ≡ (ok tt, record k { db = published i labs k.db })
  unfolding import_rows published ◌>>=◌
  import_rows-accepted i [] k h = refl
  import_rows-accepted i (p ∷ labs) k h =
      let good : matches_lab_id p.id ≡ true = ground arith in
      let rest =
        import_rows-accepted (suc i) labs (record k { db = upsert_lab (lab_of i p) k.db })
          (ground (arith, h)) in
      rw good rest

  find_by-published :
      (i : ℕ) (labs : List Published) (db : Db) (j : String)
      → find_by lab_key j (published i labs db).labs
        ≡ or_else (last_published i labs j) (find_by lab_key j db.labs)
  unfolding published lab_of
  find_by-published i [] db j = refl
  find_by-published i (p ∷ labs) db j = ground (
    arith,
    find_by-published (suc i) labs (upsert_lab (lab_of i p) db) j,
    find_by-upsert_lab (lab_of i p) j db,
  )

  claims-published :
      (i : ℕ) (labs : List Published) (db : Db) → (published i labs db).claims ≡ db.claims
  unfolding published upsert_lab
  claims-published i [] db = refl
  claims-published i (p ∷ labs) db = claims-published (suc i) labs _

  import_labs-accepted :
      (labs : List Published) (k : Connection)
      → all (λ p. matches_lab_id p.id) labs ≡ true
      → import_labs py labs k
        ≡ (ok (length labs), record { db = published 0 labs k.db; saved = published 0 labs k.db })
  import_labs-accepted labs k h =
      let s = import_rows-accepted 0 labs (record k { saved = k.db }) h in
      unfold import_labs write_tx ◌>>=◌ in rw s

  -- Where every id is accepted, publishing answers with the number of records; a lab is then found
  -- as its last record has it, with the place in the list for a missing order, and as before if it
  -- has no record; no claim is touched; and publishing the same again changes no lab that is found.
  pub import_labs-upserts :
      (labs : List Published) (k : Connection)
      → all (λ p. matches_lab_id p.id) labs ≡ true
      → let once = (import_labs py labs k).1 in
        ((import_labs py labs k).0 ≡ ok (length labs))
        × ((j : String)
            → find_by lab_key j once.db.labs
              ≡ or_else (last_published 0 labs j) (find_by lab_key j k.db.labs))
        × (once.db.claims ≡ k.db.claims)
        × ((j : String)
            → find_by lab_key j (import_labs py labs once).1.db.labs
              ≡ find_by lab_key j once.db.labs)
  import_labs-upserts labs k h =
      let s = import_labs-accepted labs k h in
      let found = λ (j : String). find_by-published 0 labs k.db j in
      rw s (
        refl,
        found,
        claims-published 0 labs k.db,
        λ j.
            rw
              (import_labs-accepted labs
                (record { db = published 0 labs k.db; saved = published 0 labs k.db }) h)
              (find_by-published 0 labs (published 0 labs k.db) j
                ∙ ap (or_else (last_published 0 labs j)) (found j)
                ∙ or_else_idem (last_published 0 labs j) (find_by lab_key j k.db.labs)
                ∙ sym (found j)),
      )
