-- ===== src/Pipeline/Completion.antt =====
-- When rodeo/service/status.py calls a lab complete, against the counts that it shows.
use rodeo_cli.Base.{◌≡◌, refl, ◌↔◌, ◌<◌, ◌≤◌, true, false, none, some, [], ◌∷◌, string_eq, arith}
use rodeo_cli.Pipeline.Status.{
  Report, cacheable_phase_progress, complete_from, cacheable_phases_complete,
}

-- Every phase has a record that is a dict.
abbrev pub IsRecorded : Report → Type 0
IsRecorded [] = Unit
IsRecorded ((name, none) ∷ phases) = ⊥
IsRecorded ((name, some info) ∷ phases) = IsRecorded phases

done_le_total :
    (phases : Report) → (cacheable_phase_progress phases).0 ≤ (cacheable_phase_progress phases).1
unfolding cacheable_phase_progress
done_le_total [] = omega arith
done_le_total ((name, none) ∷ phases) = done_le_total phases
done_le_total ((name, some info) ∷ phases) = ground (arith, done_le_total phases)

complete_seen :
    (phases : Report)
    → IsRecorded phases
    → complete_from true phases ≡ true
      ↔ (cacheable_phase_progress phases).0 ≡ (cacheable_phase_progress phases).1
unfolding complete_from cacheable_phase_progress
complete_seen [] r = (λ h. refl, λ h. refl)
complete_seen ((name, none) ∷ phases) r = absurd r
complete_seen ((name, some info) ∷ phases) r =
    let (to, fro) = complete_seen phases r in
    (λ h. ground (arith, to), λ h. ground (arith, fro, done_le_total phases))

complete_unseen :
    (phases : Report)
    → IsRecorded phases
    → complete_from false phases ≡ true ↔ (
        ((cacheable_phase_progress phases).0 ≡ (cacheable_phase_progress phases).1)
        × (0 < (cacheable_phase_progress phases).1))
unfolding complete_from cacheable_phase_progress
complete_unseen [] r = (λ h. absurd (ground arith), λ (h, l). absurd (omega arith))
complete_unseen ((name, none) ∷ phases) r = absurd r
complete_unseen ((name, some info) ∷ phases) r =
    let (to, fro) = complete_unseen phases r in
    let (seen, back) = complete_seen phases r in
    (λ h. ground (arith, to, seen), λ h. ground (arith, fro, back, done_le_total phases))

-- A lab whose phases all have a record is complete just if the count of finished phases is the
-- count of all, both over the cacheable phases only, and there is a cacheable phase at all.
pub cacheable_phases_complete_iff :
    (phases : Report)
    → IsRecorded phases
    → cacheable_phases_complete phases ≡ true ↔ (
        ((cacheable_phase_progress phases).0 ≡ (cacheable_phase_progress phases).1)
        × (0 < (cacheable_phase_progress phases).1))
unfolding cacheable_phases_complete
cacheable_phases_complete_iff = complete_unseen
