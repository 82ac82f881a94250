-- ===== src/Pipeline/Records.antt =====
-- What the writes of rodeo/state.py do to the answers of `is_phase_done`.
use rodeo_cli.Base.{
  ◌≡◌, ◌≢◌, refl, String, Bool, true, false, ◌&&◌, ◌||◌, Option, none, some, List, [], ◌∷◌, ok,
  ◌==◌, string_eq, option_eq, contains, ℕ, suc, Bool-cases, inl, inr, if◌then◌else◌, arith,
}
use rodeo_cli.Base.Lists.{drop}
use rodeo_cli.Base.Dict
use rodeo_cli.Base.Dict.{Dict, lookup-insert, lookup-erase}
use rodeo_cli.Pipeline.State.{
  Entry, State, Files, load_state, save_state, stored, record_phase, mark_phase_done,
  mark_phase_failed, index, index_or_zero, erase_phases, suffix_from, reset_from, entry_done,
  is_phase_done,
}

-- The records of a plan.
abbrev pub records : String → Files → Dict Entry
records plan fs = stored (load_state plan fs)

stored-save_state :
    (s : State) (plan other : String) (fs : Files)
    → records other (save_state s plan fs) ≡ (if other == plan then stored s else records other fs)
unfolding load_state save_state
stored-save_state s plan other fs = ground (arith, lookup-insert other plan s fs)

lookup-record_phase :
    (p : String) (e : Entry) (plan : String) (fs : Files) (q other : String)
    → Dict.lookup q (records other (record_phase p e plan fs))
      ≡ (if other == plan && q == p then some e else Dict.lookup q (records other fs))
lookup-record_phase p e plan fs q other =
    let s = load_state plan fs in
    let same =
      stored-save_state (record s { phases = some (Dict.insert p e (stored s)) }) plan other fs in
    unfold record_phase in rw same (unfold stored in ground (arith, lookup-insert q p e (stored s)))

entry_done-if :
    (asked : Option String) (b : Bool) (x y : Option Entry)
    → entry_done asked (if b then x else y) ≡ (if b then entry_done asked x else entry_done asked y)
entry_done-if asked true x y = refl
entry_done-if asked false x y = refl

entry_done-none : (asked : Option String) → entry_done asked none ≡ false
unfolding entry_done
entry_done-none none = refl
entry_done-none (some k) = refl

entry_done-failed :
    (asked : Option String) (e : Entry) → e.completed ≡ false → entry_done asked (some e) ≡ false
unfolding entry_done
entry_done-failed none e h = h
entry_done-failed (some k) e h = rw h refl

entry_done-some :
    (asked : Option String) (e : Entry)
    → e.completed ≡ true
    → entry_done asked (some e) ≡ (asked == none || e.key == asked)
unfolding entry_done option_eq
entry_done-some none e h = h
entry_done-some (some k) e h = rw h refl

-- After `mark_phase_done`, the phase is done for the key that is recorded, and for no other; other
-- phases and other plans are as before.
pub is_phase_done-mark_phase_done :
    (p plan now : String) (key : Option String) (fs : Files) (q other : String)
    (asked : Option String)
    → is_phase_done q other asked (mark_phase_done p plan key now fs) ≡ (
        if other == plan && q == p
        then asked == none || key == asked
        else is_phase_done q other asked fs)
is_phase_done-mark_phase_done p plan now key fs q other asked =
    unfold is_phase_done mark_phase_done in
    rw (lookup-record_phase p _ plan fs q other) (rw (entry_done-if, entry_done-some) refl)

-- After `mark_phase_failed`, the phase is not done for any key; all else is as before.
pub is_phase_done-mark_phase_failed :
    (p error plan now : String) (fs : Files) (q other : String) (asked : Option String)
    → is_phase_done q other asked (mark_phase_failed p error plan now fs)
      ≡ (if other == plan && q == p then false else is_phase_done q other asked fs)
is_phase_done-mark_phase_failed p error plan now fs q other asked =
    unfold is_phase_done mark_phase_failed in
    rw (lookup-record_phase p _ plan fs q other) (rw (entry_done-if, entry_done-failed) refl)

lookup-erase_phases :
    (ps : List String) (d : Dict Entry) (q : String)
    → Dict.lookup q (erase_phases ps d) ≡ (if contains ps q then none else Dict.lookup q d)
unfolding erase_phases
lookup-erase_phases [] d q = refl
lookup-erase_phases (p ∷ ps) d q =
    ground (arith, lookup-erase_phases ps (Dict.erase p d) q, lookup-erase q p d)

-- The phase is the given one or one after it.
abbrev pub is_after : String → List String → String → Bool
is_after p [] q = false
is_after p (r ∷ rs) q = if r == p then q == r || contains rs q else is_after p rs q

-- What is cleared: from the given phase on, or all, where it is none of them.
abbrev pub is_cleared : String → List String → String → Bool
is_cleared p phases q = if contains phases p then is_after p phases q else contains phases q

-- Where the given phase stands, and what is from there on.
IsPlaced : String → List String → String → Option ℕ → Type 0
IsPlaced p phases q none = contains phases p ≡ false
IsPlaced p phases q (some i) =
    (contains phases p ≡ true) × (contains (drop i phases) q ≡ is_after p phases q)

shift-IsPlaced :
    (p r : String) (rs : List String) (q : String) (o : Option ℕ)
    → (r == p) ≡ false
    → IsPlaced p rs q o
    → IsPlaced p (r ∷ rs) q (elim o [ none ↦ none | some i ↦ some (suc i) ])
unfolding IsPlaced
shift-IsPlaced p r rs q none n h = ground (arith, n, h)
shift-IsPlaced p r rs q (some i) n (there, same) = (ground (arith, n, there), rw n same)

index-IsPlaced :
    (p : String) (phases : List String) (q : String) → IsPlaced p phases q (index p phases)
unfolding IsPlaced index
index-IsPlaced p [] q = refl
index-IsPlaced p (r ∷ rs) q = elim (Bool-cases (r == p)) [
  | inl e ↦ rw e (ground (arith, e), ground arith)
  | inr n ↦ rw n (shift-IsPlaced p r rs q (index p rs) n (index-IsPlaced p rs q))
]

cleared_at :
    (p : String) (phases : List String) (q : String) (o : Option ℕ)
    → IsPlaced p phases q o
    → contains (drop (elim o [ none ↦ 0 | some i ↦ i ]) phases) q ≡ is_cleared p phases q
unfolding IsPlaced
cleared_at p phases q none h = rw h refl
cleared_at p phases q (some i) (there, same) = rw there same

pub contains-suffix :
    (p : String) (phases : List String) (q : String)
    → contains (suffix_from p phases) q ≡ is_cleared p phases q
unfolding index_or_zero
contains-suffix p phases q = cleared_at p phases q (index p phases) (index-IsPlaced p phases q)

-- `reset_from` refuses only an empty list of phases. Else no phase from the given one on is done, for
-- any key; the phases before it, those that are not listed, and other plans are as before.
pub reset_from-is_phase_done :
    (p plan : String) (phases : List String) (fs : Files)
    → phases ≢ []
    → (after : Files) × (reset_from p plan phases fs ≡ ok after)
      × ((q other : String) (asked : Option String)
          → is_phase_done q other asked after ≡ (
              if other == plan && is_cleared p phases q
              then false
              else is_phase_done q other asked fs))
reset_from-is_phase_done p plan [] fs n = absurd (n refl)
reset_from-is_phase_done p plan (r ∷ rs) fs n =
    let s = load_state plan fs in
    let cleared = erase_phases (suffix_from p (r ∷ rs)) (stored s) in
    let saved = record s { phases = some cleared } in
    (
      save_state saved plan fs,
      unfold reset_from in refl,
      λ q other asked.
          unfold is_phase_done in
          rw (stored-save_state saved plan other fs) (
            unfold stored in
            ground (
              arith,
              lookup-erase_phases (suffix_from p (r ∷ rs)) (stored s) q,
              contains-suffix p (r ∷ rs) q,
              entry_done-none asked,
            )),
    )
