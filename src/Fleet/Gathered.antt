-- ===== src/Fleet/Gathered.antt =====
-- The results of fanout (rodeo/fleet/fanout.py), whatever the order in which its workers finish.
use mathlib.Core.Path.{subst}
use rodeo_cli.Base.{
  ◌≡◌, refl, sym, ◌∙◌, ℕ, String, true, false, ◌||◌, some, List, [], ◌∷◌, map, Outcome, ok, ◌==◌,
  nat_eq, string_eq, bind-of-ok, Bool-cases, inl, inr, ==_refl, arith,
}
use rodeo_cli.Base.Lists.{length, In}
use rodeo_cli.Base.Rows.{has, is_unique}
use rodeo_cli.Base.Dict
use rodeo_cli.Base.Dict.{Dict, lookup-insert}
use rodeo_cli.Fleet.Inventory.{FleetHost}
use rodeo_cli.Fleet.Hosts.{host_id}
use rodeo_cli.Fleet.Fanout.{run, run_each, gather, result_of, results_of, workers_of, fanout}

module _ {E T : Type 0} (worker : FleetHost → Outcome E T) (f : FleetHost → T)
    (returns : (h : FleetHost) → worker h ≡ ok (f h)) where
  run-ok : (h : FleetHost) → run worker h ≡ ok (f h)
  unfolding run
  run-ok h = rw (run, returns h) refl

  run_each-map : (hosts : List FleetHost) → run_each worker hosts ≡ ok (map f hosts)
  unfolding run_each
  run_each-map [] = refl
  run_each-map (h ∷ hosts) =
      bind-of-ok _ _ (f h) (run-ok h) ∙ bind-of-ok _ _ (map f hosts) (run_each-map hosts)

  -- The results, each under its host's id.
  filled : List FleetHost → Dict T → Dict T
  filled [] results = results
  filled (h ∷ order) results = filled order (Dict.insert h.id (f h) results)

  gather-filled :
      (order : List FleetHost) (results : Dict T)
      → gather worker order results ≡ ok (filled order results)
  unfolding gather filled
  gather-filled [] results = refl
  gather-filled (h ∷ order) results =
      bind-of-ok _ _ (f h) (run-ok h) ∙ gather-filled order (Dict.insert h.id (f h) results)

  lookup-filled_absent :
      (i : String) (order : List FleetHost) (results : Dict T)
      → has host_id i order ≡ false
      → Dict.lookup i (filled order results) ≡ Dict.lookup i results
  unfolding filled has
  lookup-filled_absent i [] results h = refl
  lookup-filled_absent i (x ∷ order) results h =
      lookup-filled_absent i order (Dict.insert x.id (f x) results) (ground arith)
      ∙ lookup-insert i x.id (f x) results
      ∙ ground arith

  lookup-filled :
      (h : FleetHost) (order : List FleetHost) (results : Dict T)
      → is_unique host_id order ≡ true
      → In h order
      → Dict.lookup h.id (filled order results) ≡ some (f h)
  unfolding filled is_unique
  lookup-filled h [] results u i = absurd i
  lookup-filled h (x ∷ order) results u (inl e) =
      let stored = Dict.insert x.id (f x) results in
      let found : Dict.lookup x.id (filled order stored) ≡ some (f x) =
        lookup-filled_absent x.id order stored (ground arith)
        ∙ lookup-insert x.id x.id (f x) results
        ∙ (rw (==_refl x.id) refl) in
      subst (λ h. Dict.lookup h.id (filled order stored) ≡ some (f h)) (sym e) found
  lookup-filled h (x ∷ order) results u (inr i) =
      lookup-filled h order (Dict.insert x.id (f x) results) (ground arith) i

  results_of-map :
      (results : Dict T) (hosts : List FleetHost)
      → ((h : FleetHost) → In h hosts → Dict.lookup h.id results ≡ some (f h))
      → results_of worker results hosts ≡ ok (map f hosts)
  unfolding results_of result_of
  results_of-map results [] w = refl
  results_of-map results (h ∷ hosts) w =
      let here : result_of worker h.id (Dict.lookup h.id results) ≡ ok (f h) =
        rw (w h (inl refl)) refl in
      bind-of-ok _ _ (f h) here
      ∙ bind-of-ok _ _ (map f hosts) (results_of-map results hosts (λ x i. w x (inr i)))

  fanout-each :
      (concurrency : ℕ) (hosts order : List FleetHost)
      → is_unique host_id order ≡ true
      → ((h : FleetHost) → In h hosts → In h order)
      → fanout worker concurrency order hosts ≡ ok (map f hosts)
  unfolding fanout
  fanout-each concurrency [] order u w = refl
  fanout-each concurrency (h ∷ hosts) order u w =
      let all = h ∷ hosts in
      elim (Bool-cases (workers_of worker concurrency all == 1 || length all == 1)) [
        | inl few ↦ rw (few) (run_each-map all)
        | inr many ↦ rw (many) (
            bind-of-ok _ _ (filled order []) (gather-filled order [])
            ∙ results_of-map (filled order []) all (λ x i. lookup-filled x order [] u (w x i)))
      ]

-- Whatever the order in which the workers finish, and however many run at once, where none raises
-- and the hosts that finish have distinct ids and are all that were asked for, the results are those
-- of one run after another, in the order of the hosts.
pub fanout-map :
    {E T : Type 0} (worker : FleetHost → Outcome E T) (f : FleetHost → T) (concurrency : ℕ)
    (hosts order : List FleetHost)
    → ((h : FleetHost) → worker h ≡ ok (f h))
    → is_unique host_id order ≡ true
    → ((h : FleetHost) → In h hosts → In h order)
    → (fanout worker concurrency order hosts ≡ run_each worker hosts)
      × (fanout worker concurrency order hosts ≡ ok (map f hosts))
fanout-map worker f concurrency hosts order returns u w =
    let each = fanout-each worker f returns concurrency hosts order u w in
    (each ∙ sym (run_each-map worker f returns hosts), each)
