-- ===== src/Portal/Claiming/Offer.antt =====
-- The lab that a claim is offered: free, and none that is free comes before it.
use mathlib.Core.Option.{some-injective}
use rodeo_cli.Base.{
  ◌≡◌, refl, true, false, not, ◌&&◌, none, some, List, [], ◌∷◌, ◌⊎◌, inl, inr, Bool-cases,
  Option-cases, if◌then◌else◌, arith, ltb_ℤ, ltb_ℤ_irrefl, ltb_ℤ_trans, ltb_ℤ_asym,
}
use rodeo_cli.Base.Lists.{In, in_keep, keep_in}
use rodeo_cli.Base.Rows.{has}
use rodeo_cli.Portal.Db.{Db, Lab, claim_lab, free_labs, first_by_ord}

-- The lab that is offered is one of them.
pub first_by_ord-in : (ls : List Lab) (l : Lab) → first_by_ord ls ≡ some l → In l ls
unfolding first_by_ord
first_by_ord-in [] l h = cc
first_by_ord-in (m ∷ ls) l h = elim (Option-cases (first_by_ord ls)) [
  | inl e ↦ ground (arith, e)
  | inr (n, e) ↦ ground (arith, e, first_by_ord-in ls n)
]

first_by_ord-none : (ls : List Lab) → first_by_ord ls ≡ none → ls ≡ []
unfolding first_by_ord
first_by_ord-none [] e = refl
first_by_ord-none (n ∷ ls) e = ground arith

least_of_two :
    (n o l m : Lab)
    → (if ltb_ℤ o.ord n.ord then some o else some n) ≡ some l
    → (m ≡ n) ⊎ (ltb_ℤ m.ord o.ord ≡ false)
    → ltb_ℤ m.ord l.ord ≡ false
least_of_two n o l m h q = elim (Bool-cases (ltb_ℤ o.ord n.ord)) [
  | inl less ↦
      let p : o ≡ l = some-injective o l (rw less at h) in
      elim q [ inl e ↦ rw (e, ← p) (ltb_ℤ_asym o.ord n.ord less) | inr g ↦ rw (← p) g ]
  | inr more ↦
      let p : n ≡ l = some-injective n l (rw more at h) in
      elim q [
        | inl e ↦ rw (e, p) (ltb_ℤ_irrefl l.ord)
        | inr g ↦ rw (← p) (ltb_ℤ_trans n.ord o.ord m.ord more g)
      ]
]

least_alone :
    (n : Lab) (ls : List Lab) (l m : Lab)
    → first_by_ord ls ≡ none
    → some n ≡ some l
    → In m (n ∷ ls)
    → ltb_ℤ m.ord l.ord ≡ false
least_alone n ls l m e h (inl q) = rw (q, some-injective n l h) (ltb_ℤ_irrefl l.ord)
least_alone n ls l m e h (inr q) = absurd (rw (first_by_ord-none ls e) at q)

-- No other comes before it.
pub first_by_ord-least :
    (ls : List Lab) (l m : Lab) → first_by_ord ls ≡ some l → In m ls → ltb_ℤ m.ord l.ord ≡ false
unfolding first_by_ord
first_by_ord-least [] l m h i = absurd i
first_by_ord-least (n ∷ ls) l m h i = elim (Option-cases (first_by_ord ls)) [
  | inl e ↦ least_alone n ls l m e (rw e at h) i
  | inr (o, e) ↦
      least_of_two n o l m (rw e at h)
        (elim i [ inl q ↦ inl q | inr q ↦ inr (first_by_ord-least ls o m e q) ])
]

-- What a lab is that `claim_open` may give: ready, unclaimed, and first among such labs.
pub record IsOffer (db : Db) (l : Lab) : Type 0 where
  pub listed : In l db.labs
  pub is_ready : l.ready ≡ true
  pub is_free : has claim_lab l.id db.claims ≡ false
  pub is_first :
      (m : Lab)
      → In m db.labs
      → m.ready ≡ true
      → has claim_lab m.id db.claims ≡ false
      → ltb_ℤ m.ord l.ord ≡ false

pub first_by_ord-IsOffer :
    (db : Db) (l : Lab) → first_by_ord (free_labs true db) ≡ some l → IsOffer db l
unfolding free_labs
first_by_ord-IsOffer db l h =
    let wanted = λ (m : Lab). m.ready && not (has claim_lab m.id db.claims) in
    let (t, i) = in_keep wanted l db.labs (first_by_ord-in (free_labs true db) l h) in
    record {
      listed = i;
      is_ready = ground (arith, t);
      is_free = ground (arith, t);
      is_first = λ m j r f.
          first_by_ord-least (free_labs true db) l m h (keep_in wanted m db.labs j (ground arith));
    }
