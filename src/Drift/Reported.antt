-- ===== src/Drift/Reported.antt =====
-- The changes of rodeo/drift.py, row by row.
use rodeo_cli.Base.{
  ◌≡◌, refl, sym, ap, inl, inr, String, Bool, true, false, not, ◌&&◌, ◌||◌, Option, none, some,
  List, [], ◌∷◌, ◌++◌, map, ◌==◌, string_eq, contains, arith, Bool-cases, ==_refl,
}
use rodeo_cli.Base.Lists.{any, keep, any-append, In}
use rodeo_cli.Base.Dict
use rodeo_cli.Portal.Python.{Python}
use rodeo_cli.Drift.Plan.{Resources, PlanConfig, plan_vm_rows}
use rodeo_cli.Drift.Report.{
  Kind, is_create, is_dhcp, VmChange, VmOk, DriftReport, Host, VmInfo, Verdict, judge, note,
  judge_rows, res_of, address, desired_rows, collect_drift, drop_implied, is_flagged, created,
  resized, collect_dhcp_drift,
}

-- The change in a verdict.
abbrev pub change_of : Verdict → List VmChange
change_of (Verdict.changed c) = c ∷ []
change_of Verdict.flagged = []
change_of (Verdict.fine o) = []

pub append_assoc {ℓ} : {A : Type ℓ} (xs ys zs : List A) → (xs ++ ys) ++ zs ≡ xs ++ (ys ++ zs)
append_assoc [] ys zs = refl
append_assoc (x ∷ xs) ys zs = ap (λ l. x ∷ l) (append_assoc xs ys zs)

pub append-nil {ℓ} : {A : Type ℓ} (xs : List A) → xs ++ [] ≡ xs
append-nil [] = refl
append-nil (x ∷ xs) = ap (λ l. x ∷ l) (append-nil xs)

changes-note : (v : Verdict) (r : DriftReport) → (note v r).vm_changes ≡ r.vm_changes ++ change_of v
unfolding note
changes-note (Verdict.changed c) r = refl
changes-note Verdict.flagged r = sym (append-nil r.vm_changes)
changes-note (Verdict.fine o) r = sym (append-nil r.vm_changes)

module _ (py : Python) (cfg : PlanConfig) (host : Host) where
  -- Whether a DHCP line was flagged decides only if a VM is listed as fine.
  change_of-judge :
      (res : Resources) (name ip : String) (info : Option VmInfo) (l : List VmChange)
      → change_of (judge py res name ip info l) ≡ change_of (judge py res name ip info [])
  unfolding judge
  change_of-judge res name ip none l = refl
  change_of-judge res name ip (some info) l = ground arith

  abbrev pub row_changes : List (String × Option String) → List VmChange
  row_changes [] = []
  row_changes ((name, ip) ∷ rows) =
      change_of (judge py (res_of cfg name) name (address ip) (Dict.lookup name host.vms) [])
      ++ row_changes rows

  pub changes-judge_rows :
      (rows : List (String × Option String)) (r : DriftReport)
      → (judge_rows py cfg host rows r).vm_changes ≡ r.vm_changes ++ row_changes rows
  unfolding judge_rows
  changes-judge_rows [] r = sym (append-nil r.vm_changes)
  changes-judge_rows ((name, ip) ∷ rows) r =
      let info = Dict.lookup name host.vms in
      let v = judge py (res_of cfg name) name (address ip) info r.vm_changes in
      let w = judge py (res_of cfg name) name (address ip) info [] in
      rw
        (
          changes-judge_rows rows (note v r),
          changes-note v r,
          change_of-judge (res_of cfg name) name (address ip) info r.vm_changes,
          append_assoc r.vm_changes (change_of w) (row_changes rows),
        )
        refl

-- A change of that VM, or the VM listed as it was planned.
abbrev pub mentions : String → List VmChange → Bool
mentions name l = any (λ c. c.name == name) l

abbrev pub lists : String → List VmOk → Bool
lists name l = any (λ o. o.name == name) l

abbrev spared : List String → VmChange → Bool
spared names c = not (is_dhcp c.kind && contains names c.name)

mentions_uncreated :
    (names : List String) (name : String) (l : List VmChange)
    → contains names name ≡ false
    → mentions name l ≡ true
    → mentions name (keep (spared names) l) ≡ true
mentions_uncreated names name [] h m = m
mentions_uncreated names name (c ∷ l) h m =
    ground (arith, mentions_uncreated names name l, ap (contains names))

created-is_dhcp : (k : Kind) → is_create k ≡ true → is_dhcp k ≡ false
unfolding is_create is_dhcp
created-is_dhcp Kind.create h = refl
created-is_dhcp Kind.memory h = refl
created-is_dhcp Kind.vcpu h = refl
created-is_dhcp Kind.dhcp h = cc

mentions_created :
    (names : List String) (name : String) (l : List VmChange)
    → contains (map (λ c. c.name) (keep (λ c. is_create c.kind) l)) name ≡ true
    → mentions name (keep (spared names) l) ≡ true
mentions_created names name [] h = h
mentions_created names name (c ∷ l) h =
    ground (arith, mentions_created names name l, created-is_dhcp c.kind, ==_refl name)

-- What is said of a VM outlasts the last step.
mentions-drop_implied :
    (name : String) (r : DriftReport)
    → mentions name r.vm_changes ≡ true
    → mentions name (drop_implied r).vm_changes ≡ true
unfolding drop_implied
mentions-drop_implied name r m =
    let names = map (λ c. c.name) (keep (λ c. is_create c.kind) r.vm_changes) in
    elim (Bool-cases (contains names name)) [
      | inl h ↦ mentions_created names name r.vm_changes h
      | inr h ↦ mentions_uncreated names name r.vm_changes h m
    ]

ok-drop_implied : (r : DriftReport) → (drop_implied r).vm_ok ≡ r.vm_ok
unfolding drop_implied
ok-drop_implied r = refl

-- What is said of a VM.
abbrev pub speaks : String → DriftReport → Bool
speaks name r = mentions name r.vm_changes || lists name r.vm_ok

speaks-drop_implied :
    (name : String) (r : DriftReport) → speaks name r ≡ true → speaks name (drop_implied r) ≡ true
speaks-drop_implied name r h = ground (arith, mentions-drop_implied name r, ok-drop_implied r)

flagged-mentions :
    (name : String) (l : List VmChange) → is_flagged name l ≡ true → mentions name l ≡ true
unfolding is_flagged
flagged-mentions name [] h = h
flagged-mentions name (c ∷ l) h = ground (arith, flagged-mentions name l)

speaks-note :
    (name : String) (v : Verdict) (r : DriftReport)
    → speaks name r ≡ true
    → speaks name (note v r) ≡ true
unfolding note
speaks-note name (Verdict.changed c) r h =
    ground (arith, any-append (λ c. c.name == name) r.vm_changes (c ∷ []))
speaks-note name Verdict.flagged r h = h
speaks-note name (Verdict.fine o) r h =
    ground (arith, any-append (λ o. o.name == name) r.vm_ok (o ∷ []))

-- A verdict on that VM.
abbrev is_about : String → List VmChange → Verdict → Bool
is_about name l (Verdict.changed c) = c.name == name
is_about name l Verdict.flagged = is_flagged name l
is_about name l (Verdict.fine o) = o.name == name

speaks-note_about :
    (name : String) (v : Verdict) (r : DriftReport)
    → is_about name r.vm_changes v ≡ true
    → speaks name (note v r) ≡ true
unfolding note
speaks-note_about name (Verdict.changed c) r h =
    ground (arith, any-append (λ c. c.name == name) r.vm_changes (c ∷ []))
speaks-note_about name Verdict.flagged r h = ground (arith, flagged-mentions name r.vm_changes)
speaks-note_about name (Verdict.fine o) r h =
    ground (arith, any-append (λ o. o.name == name) r.vm_ok (o ∷ []))

module _ (py : Python) where
  is_about-judge :
      (res : Resources) (name ip : String) (info : Option VmInfo) (l : List VmChange)
      → is_about name l (judge py res name ip info l) ≡ true
  unfolding judge created resized
  is_about-judge res name ip none l = ==_refl name
  is_about-judge res name ip (some info) l = ground (arith, ==_refl name)

  module _ (cfg : PlanConfig) (host : Host) where
    speaks-judge_rows :
        (name : String) (rows : List (String × Option String)) (r : DriftReport)
        → speaks name r ≡ true
        → speaks name (judge_rows py cfg host rows r) ≡ true
    unfolding judge_rows
    speaks-judge_rows name [] r h = h
    speaks-judge_rows name ((n, ip) ∷ rows) r h =
        let v = judge py (res_of cfg n) n (address ip) (Dict.lookup n host.vms) r.vm_changes in
        speaks-judge_rows name rows (note v r) (speaks-note name v r h)

    speaks-row :
        (name : String) (ip : Option String) (rows : List (String × Option String))
        (r : DriftReport)
        → In (name, ip) rows
        → speaks name (judge_rows py cfg host rows r) ≡ true
    unfolding judge_rows
    speaks-row name ip [] r i = absurd i
    speaks-row name ip ((n, a) ∷ rows) r (inr i) =
        speaks-row name ip rows
          (note (judge py (res_of cfg n) n (address a) (Dict.lookup n host.vms) r.vm_changes) r) i
    speaks-row name ip ((n, a) ∷ rows) r (inl e) =
        let v = judge py (res_of cfg n) n (address a) (Dict.lookup n host.vms) r.vm_changes in
        let same : name ≡ n = ap (λ x. x.0) e in
        speaks-judge_rows name rows (note v r) (
          rw (same) (
            speaks-note_about n v r
              (is_about-judge (res_of cfg n) n (address a) (Dict.lookup n host.vms) r.vm_changes)))

  lists-desired_rows :
      (cfg : PlanConfig) (name : String) (ip : Option String) (rows : List (String × Option String))
      → In (name, ip) rows
      → lists name (desired_rows py cfg rows) ≡ true
  unfolding desired_rows
  lists-desired_rows cfg name ip [] i = absurd i
  lists-desired_rows cfg name ip ((n, a) ∷ rows) (inl e) =
      let same : name ≡ n = ap (λ x. x.0) e in ground (arith, same)
  lists-desired_rows cfg name ip ((n, a) ∷ rows) (inr i) =
      ground (arith, lists-desired_rows cfg name ip rows i)

  -- Every VM of the plan is spoken of, whatever the host is like.
  pub speaks-collect_drift :
      (cfg : PlanConfig) (actual : Option Host) (name : String) (ip : Option String)
      → In (name, ip) (plan_vm_rows cfg)
      → speaks name (collect_drift py cfg actual) ≡ true
  unfolding collect_drift
  speaks-collect_drift cfg none name ip i = lists-desired_rows cfg name ip (plan_vm_rows cfg) i
  speaks-collect_drift cfg (some host) name ip i =
      let r = judge_rows py cfg host (plan_vm_rows cfg) (record {
        reachable = true;
        vm_changes = collect_dhcp_drift cfg host;
        vm_ok = [];
        net_active = some host.net_active;
      }) in
      let said = speaks-row cfg host name ip (plan_vm_rows cfg) _ i in
      speaks-drop_implied name r said
