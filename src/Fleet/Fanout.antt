-- ===== src/Fleet/Fanout.antt =====
-- Work on many hosts at once (rodeo/fleet/fanout.py). The order in which the workers finish is an
-- argument, so that what is proved holds for each.
use rodeo_cli.Base.{
  ℕ, String, ◌||◌, Option, none, some, List, [], ◌∷◌, Outcome, ok, err, ◌==◌, nat_eq, string_eq,
  ltb, if◌then◌else◌, ◌>>=◌,
}
use rodeo_cli.Base.Lists.{length}
use rodeo_cli.Base.Dict
use rodeo_cli.Base.Dict.{Dict, lookup-insert}
use rodeo_cli.Fleet.Inventory.{FleetHost}

-- What a worker raises, or a result that is not there.
pub data FanoutError (E : Type 0) : Type 0 where
  raised : E → FanoutError E
  key_error : String → FanoutError E

module _ {E T : Type 0} (worker : FleetHost → Outcome E T) where
  unfoldable pub run : FleetHost → Outcome (FanoutError E) T
  run h = elim (worker h) [ ok t ↦ ok t | err e ↦ err (FanoutError.raised e) ]

  -- [worker(h) for h in hosts]
  unfoldable pub run_each : List FleetHost → Outcome (FanoutError E) (List T)
  run_each [] = ok []
  run_each (h ∷ hosts) = do t ← run h; rest ← run_each hosts; ok (t ∷ rest)

  -- The results by id, as the workers finish.
  unfoldable pub gather : List FleetHost → Dict T → Outcome (FanoutError E) (Dict T)
  gather [] results = ok results
  gather (h ∷ order) results = do t ← run h; gather order (Dict.insert h.id t results)

  unfoldable pub result_of : String → Option T → Outcome (FanoutError E) T
  result_of i none = err (FanoutError.key_error i)
  result_of i (some t) = ok t

  -- [results[h.id] for h in hosts]
  unfoldable pub results_of : Dict T → List FleetHost → Outcome (FanoutError E) (List T)
  results_of results [] = ok []
  results_of results (h ∷ hosts) = do
    t ← result_of h.id (Dict.lookup h.id results)
    rest ← results_of results hosts
    ok (t ∷ rest)

  -- max(1, min(concurrency, len(hosts)))
  unfoldable pub workers_of : ℕ → List FleetHost → ℕ
  workers_of concurrency hosts =
      let least = if ltb concurrency (length hosts) then concurrency else length hosts in
      if ltb least 1 then 1 else least

  unfoldable pub fanout : ℕ → List FleetHost → List FleetHost → Outcome (FanoutError E) (List T)
  unfolding workers_of
  fanout concurrency order [] = ok []
  fanout concurrency order (h ∷ hosts) =
      if workers_of concurrency (h ∷ hosts) == 1 || length (h ∷ hosts) == 1
      then run_each (h ∷ hosts)
      else (do results ← gather order []; results_of results (h ∷ hosts))
