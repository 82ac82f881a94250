-- ===== src/Pipeline/From.antt =====
-- `DeployRunner.run` of rodeo/engine/runner.py with `--from`: what is run again, and what is not.
use mathlib.Core.Path.{subst}
use rodeo_cli.Base.{
  ◌⊎◌, ◌≡◌, ◌≢◌, refl, sym, ◌∙◌, ap, ℕ, zero, suc, ◌+◌, ◌≤◌, String, true, false, ◌&&◌, Option,
  none, some, List, [], ◌∷◌, inl, inr, Bool-cases, ok, ◌==◌, ==_refl, string_eq, contains,
  if◌then◌else◌, arith,
}
use rodeo_cli.Base.Lists.{any, any-append, In, drop}
use rodeo_cli.Base.Dict.{Dict}
use rodeo_cli.Portal.Text.{is_empty}
use rodeo_cli.Pipeline.State.{Files, index, index_or_zero, is_phase_done}
use rodeo_cli.Pipeline.Records.{is_cleared, contains-suffix, reset_from-is_phase_done}
use rodeo_cli.Pipeline.Profile.{Profile, Stream}
use rodeo_cli.Pipeline.Engine.{Event, Engine, Plan, Options}
use rodeo_cli.Pipeline.Runner.{given, reset_given, start_of, reconcile_vms, run_from, run}
use rodeo_cli.Pipeline.Steps.{
  starts, fails, Ctx, is_done, is_held, Rounds, end, go, halt, run_phases-Rounds,
}
use rodeo_cli.Pipeline.Rounds.{Round-starts}
use rodeo_cli.Pipeline.Resume.{Rounds-starts}
use rodeo_cli.Pipeline.Prepared.{
  is_equipped, StartsNothing, CanWrite, run_from-StartsNothing, run_from-IsRunFrom,
}
use rodeo_cli.Pipeline.Starting.{run_phases_must}

contains_in : (x : String) (xs : List String) → In x xs → contains xs x ≡ true
contains_in x [] m = absurd m
contains_in x (y ∷ xs) (inl e) = ground (arith, ==_refl x)
contains_in x (y ∷ xs) (inr m) = ground (arith, contains_in x xs m)

drop_in : (m : ℕ) (x : String) (xs : List String) → In x (drop m xs) → In x xs
drop_in zero x xs h = h
drop_in (suc m) x [] h = h
drop_in (suc m) x (y ∷ xs) h = inr (drop_in m x xs h)

index-ne-nil : (p : String) (phases : List String) (n : ℕ) → index p phases ≡ some n → phases ≢ []
unfolding index
index-ne-nil p [] n h e = cc
index-ne-nil p (q ∷ phases) n h e = cc

module _ (engine : Engine) (table : Dict Stream) (profile : Profile) (plan : Plan)
    (options : Options) where
  abbrev Start : Type 0
  Start = Ctx engine table profile plan options

  -- A run starts no phase before its first place.
  Rounds-from :
      {start i : ℕ} {ps : List String} {c d : Start} {es : List Event} (m : ℕ) (q : String)
      → Rounds engine table profile plan options start i ps c es d
      → i + m ≤ start
      → any (starts q) es ≡ true
      → In q (drop m ps)
  Rounds-from m q end l s = cc
  Rounds-from {start = start} zero q (halt r) l s =
      (Rounds-starts engine table profile plan options start q (halt r) s).listed
  Rounds-from {start = start} (suc m) q (halt {i = i} {p = p} r) l s =
      let due = (Round-starts engine table profile plan options start i p q r s).1 in
      absurd (ground (arith, due.reached))
  Rounds-from {start = start} zero q (go r rest) l s =
      (Rounds-starts engine table profile plan options start q (go r rest) s).listed
  Rounds-from {start = start} (suc m) q (go {i = i} {p = p} {es = es} {fs = fs} r rest) l s =
      elim (Bool-cases (any (starts q) es)) [
        | inl now ↦
            let due = (Round-starts engine table profile plan options start i p q r now).1 in
            absurd (ground (arith, due.reached))
        | inr later ↦
            Rounds-from m q rest (omega arith) (ground (arith, any-append (starts q) es fs))
      ]

  no_drift :
      options.reconcile ≡ false
      → (start : ℕ) (c : Start)
      → reconcile_vms engine table profile plan options start c ≡ ok ([], start, c)
  unfolding reconcile_vms
  no_drift e start c = rw e refl

  -- What a run does with the phases from place n on.
  pub record IsRerun (n : ℕ) (r : List Event × Start) : Type 0 where
    pub only : (q : String) → any (starts q) r.0 ≡ true → In q (drop n profile.phases)
    pub each :
        any fails r.0 ≡ false
        → (q : String) → In q (drop n profile.phases)
        → is_held engine table profile plan options q ≡ false
        → any (starts q) r.0 ≡ true

  module _ (p : String) (n : ℕ) (here : index p profile.phases ≡ some n) where
    place : index_or_zero p profile.phases ≡ n
    place = unfold index_or_zero in ap (λ (o : Option ℕ). elim o [ none ↦ 0 | some i ↦ i ]) here

    given_phase :
        options.from_phase ≡ some p
        → is_empty p ≡ false
        → given engine table profile plan options options.from_phase ≡ some p
    given_phase from e =
        ap (given engine table profile plan options) from ∙ (unfold given in rw e refl)

    cleared :
        (c : Start) (after : Files)
        → ((q other : String) (asked : Option String)
            → is_phase_done q other asked after ≡ (
                if other == plan.name && is_cleared p profile.phases q
                then false
                else is_phase_done q other asked c.files))
        → (q : String) → In q (drop n profile.phases)
        → is_done engine table profile plan options q after ≡ false
    cleared c after h q m =
        let k : is_cleared p profile.phases q ≡ true =
          sym (contains-suffix p profile.phases q)
          ∙ contains_in q _ (subst (λ j. In q (drop j profile.phases)) (sym place) m) in
        h q plan.name (profile.phase_key q) ∙ rw (k, ==_refl plan.name) refl

    run_from_lem :
        (c : Start)
        → options.from_phase ≡ some p
        → is_empty p ≡ false
        → options.reconcile ≡ false
        → (after : Files) × (run engine table profile plan options c
            ≡ run_from engine table profile plan options [] n (record c { files = after }))
          × ((q : String)
              → In q (drop n profile.phases)
              → is_done engine table profile plan options q after ≡ false)
    run_from_lem c from named calm =
        let (after, same, gone) =
          reset_from-is_phase_done p plan.name profile.phases c.files
            (index-ne-nil p profile.phases n here) in
        (
          after,
          unfold run reset_given start_of in
              rw
                (
                  run,
                  given_phase from named,
                  reset_given,
                  same,
                  no_drift calm,
                  given_phase from named,
                  place,
                )
                refl,
          cleared c after gone,
        )

    -- `--from p`, where p is the phase at place n, drift is not looked at, and the rest of
    -- _write_vars_file does not raise: if the plan has the secrets and the checksum that its VMs need,
    -- the run returns; it starts no phase but those from p on; and if nothing fails, it starts each of
    -- them, whatever their records were, but for those that the image guard holds back. If the plan
    -- lacks one, the run starts no phase.
    pub run-IsRerun :
        (c : Start)
        → options.from_phase ≡ some p
        → is_empty p ≡ false
        → options.reconcile ≡ false
        → CanWrite engine table profile plan options
        → ((is_equipped engine table profile plan options ≡ true)
            × (r : List Event × Start) × (run engine table profile plan options c ≡ ok r)
            × IsRerun n r)
          ⊎ ((is_equipped engine table profile plan options ≡ false)
              × StartsNothing engine table profile plan options
                  (run engine table profile plan options c))
    run-IsRerun c from named calm can =
        let (after, same, gone) = run_from_lem c from named calm in
        let k : Start = record c { files = after } in
        elim (Bool-cases (is_equipped engine table profile plan options)) [
          | inr lacking ↦ inr (
            lacking,
            subst (StartsNothing engine table profile plan options) (sym same)
                (run_from-StartsNothing engine table profile plan options lacking n k),
          )
          | inl equipped ↦
              let (r, returns, f) =
                run_from-IsRunFrom engine table profile plan options can equipped n k in
              let i = f.inner in
              inl (
                equipped,
                r,
                same ∙ returns,
                record {
                  only = λ q s.
                      Rounds-from n q
                        (run_phases-Rounds engine table profile plan options n 0 profile.phases i)
                        (omega arith) (f.started q s);
                  each = λ g q m h. (f.unfailed g).1 q (
                      run_phases_must engine table profile plan options n profile.phases i q
                        (f.unfailed g).0 m (inr (rw f.files (gone q m))) h);
                },
              )
        ]
