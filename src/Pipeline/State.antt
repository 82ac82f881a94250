-- ===== src/Pipeline/State.antt =====
-- rodeo/state.py: which phases of a plan are finished. A plan's file is taken as the value that
-- YAML reads from it, and the time is an argument.
use rodeo_cli.Base.{
  ℕ, suc, String, Bool, true, false, ◌&&◌, Option, none, some, List, [], ◌∷◌, Outcome, ok, err,
  ◌==◌, string_eq, option_eq, if◌then◌else◌,
}
use rodeo_cli.Base.Lists.{drop}
use rodeo_cli.Base.Dict
use rodeo_cli.Base.Dict.{Dict}

-- The record of a phase. A missing `completed` counts as false.
pub record Entry : Type 0 where
  pub completed : Bool
  pub timestamp : String
  pub key : Option String
  pub last_error : Option String

-- A plan's file: `phases`, which may be missing, and the other keys.
pub record State : Type 0 where
  pub phases : Option (Dict Entry)
  pub others : Dict String

-- The directory of the state files, by plan.
abbrev pub Files : Type 0
Files = Dict State

pub data StateError : Type 0 where
  value_error : String → StateError

abbrev pub phases_required : StateError
phases_required =
    value_error
      "reset_from(phase, plan_name, phases) requires the phases list (pass profile.phases). The global default was removed."

unfoldable pub load_state : String → Files → State
load_state plan fs = elim (Dict.lookup plan fs) [
  | none ↦ record { phases = none; others = [] }
  | some s ↦ s
]

unfoldable pub save_state : State → String → Files → Files
save_state s plan fs = Dict.insert plan s fs

-- state.get("phases", {})
unfoldable pub stored : State → Dict Entry
stored s = elim s.phases [ none ↦ [] | some d ↦ d ]

unfoldable pub record_phase : String → Entry → String → Files → Files
record_phase phase entry plan fs =
    let s = load_state plan fs in
    save_state (record s { phases = some (Dict.insert phase entry (stored s)) }) plan fs

unfoldable pub mark_phase_done : String → String → Option String → String → Files → Files
mark_phase_done phase plan key now fs =
    record_phase phase (record { completed = true; timestamp = now; key = key; last_error = none })
      plan fs

unfoldable pub mark_phase_failed : String → String → String → String → Files → Files
mark_phase_failed phase error plan now fs =
    record_phase phase
      (record { completed = false; timestamp = now; key = none; last_error = some error }) plan fs

unfoldable pub reset_phase : String → String → Files → Files
reset_phase phase plan fs =
    let s = load_state plan fs in
    save_state
      (record s { phases = elim s.phases [ none ↦ none | some d ↦ some (Dict.erase phase d) ] })
      plan fs

-- phases.index(phase) if phase in phases else 0
unfoldable pub index : String → List String → Option ℕ
index phase [] = none
index phase (p ∷ phases) =
    if p == phase
    then some 0
    else (elim (index phase phases) [ none ↦ none | some i ↦ some (suc i) ])

unfoldable pub index_or_zero : String → List String → ℕ
index_or_zero phase phases = elim (index phase phases) [ none ↦ 0 | some i ↦ i ]

unfoldable pub erase_phases : List String → Dict Entry → Dict Entry
erase_phases [] d = d
erase_phases (p ∷ ps) d = erase_phases ps (Dict.erase p d)

-- The phase and those after it; all of them if it is none of them.
abbrev pub suffix_from : String → List String → List String
suffix_from phase phases = drop (index_or_zero phase phases) phases

unfoldable pub reset_from : String → String → List String → Files → Outcome StateError Files
reset_from phase plan [] fs = err phases_required
reset_from phase plan (p ∷ ps) fs =
    let s = load_state plan fs in
    let cleared = erase_phases (suffix_from phase (p ∷ ps)) (stored s) in
    ok (save_state (record s { phases = some cleared }) plan fs)

-- The phase completed, and for this key if one is asked for.
unfoldable pub entry_done : Option String → Option Entry → Bool
entry_done key none = false
entry_done none (some entry) = entry.completed
entry_done (some k) (some entry) = entry.completed && entry.key == some k

unfoldable pub is_phase_done : String → String → Option String → Files → Bool
is_phase_done phase plan key fs = entry_done key (Dict.lookup phase (stored (load_state plan fs)))
