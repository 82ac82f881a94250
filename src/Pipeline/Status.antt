-- ===== src/Pipeline/Status.antt =====
-- rodeo/service/status.py: the phases of a status report, and whether a lab is complete.
use rodeo_cli.Base.{
  ℕ, suc, String, Bool, true, false, not, ◌||◌, Option, none, some, List, [], ◌∷◌, string_eq,
  contains, if◌then◌else◌,
}
use rodeo_cli.Base.Dict
use rodeo_cli.Base.Dict.{Dict}
use rodeo_cli.Portal.Text.{is_empty}
use rodeo_cli.Pipeline.State.{Entry, Files, stored, load_state}
use rodeo_cli.Pipeline.Profile.{Profile}

-- A phase of the report.
pub record Info : Type 0 where
  pub completed : Bool
  pub no_cache : Bool
  pub timestamp : Option String
  pub last_error : Option String

-- The phases as reported; `none` is a record that is no dict.
abbrev pub Report : Type 0
Report = Dict (Option Info)

unfoldable pub phase_is_no_cache : String → Info → Bool
phase_is_no_cache name info = info.no_cache || contains ("apply" ∷ []) name

unfoldable pub cacheable_phase_progress : Report → ℕ × ℕ
cacheable_phase_progress [] = (0, 0)
cacheable_phase_progress ((name, none) ∷ phases) = cacheable_phase_progress phases
cacheable_phase_progress ((name, some info) ∷ phases) =
    let (done, total) = cacheable_phase_progress phases in
    if phase_is_no_cache name info
    then (done, total)
    else ((if info.completed then suc done else done), suc total)

-- The loop, with whether a cacheable phase was seen.
unfoldable pub complete_from : Bool → Report → Bool
complete_from saw [] = saw
complete_from saw ((name, none) ∷ phases) = false
complete_from saw ((name, some info) ∷ phases) =
    let rest = complete_from saw phases in
    let rest_saw = complete_from true phases in
    if phase_is_no_cache name info then rest else if not info.completed then false else rest_saw

unfoldable pub cacheable_phases_complete : Report → Bool
cacheable_phases_complete phases = complete_from false phases

abbrev nonempty : Option String → Option String
nonempty none = none
nonempty (some s) = if is_empty s then none else some s

unfoldable pub info_of : Profile → String → Option Entry → Info
info_of profile phase none = record {
  completed = false;
  no_cache = contains profile.no_cache_phases phase;
  timestamp = none;
  last_error = none;
}
info_of profile phase (some entry) = record {
  completed = entry.completed;
  no_cache = contains profile.no_cache_phases phase;
  timestamp = nonempty (some entry.timestamp);
  last_error = nonempty entry.last_error;
}

-- The loop of `status_report` over the profile's phases.
unfoldable pub report_phases : Profile → Dict Entry → List String → Report → Report
report_phases profile d [] out = out
report_phases profile d (phase ∷ phases) out =
    report_phases profile d phases
      (Dict.insert phase (some (info_of profile phase (Dict.lookup phase d))) out)

unfoldable pub status_phases : Profile → String → Files → Report
status_phases profile plan fs =
    report_phases profile (stored (load_state plan fs)) profile.phases []
