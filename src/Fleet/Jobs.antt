-- ===== src/Fleet/Jobs.antt =====
-- A job that is saved and loaded again (rodeo/fleet/job.py).
use rodeo_cli.Base.{
  ◌≡◌, refl, ◌∙◌, ap, ℤ, pos, negsuc, zero, suc, String, Bool, true, false, not, [], ◌∷◌, ok,
  string_eq, nat_eq, arith, bind-of-ok,
}
use rodeo_cli.Base.Lists.{all}
use rodeo_cli.Base.Dict
use rodeo_cli.Base.Dict.{Dict}
use rodeo_cli.Portal.Python.{Python}
use rodeo_cli.Portal.Text.{is_empty}
use rodeo_cli.Config.Entries.{fields-dict_of}
use rodeo_cli.Config.Value.{
  Value, fields, dict_of, as_dict, get, get_or, is_true, or_else, str_of, int_of, text_or,
  mapping_or_empty,
}
use rodeo_cli.Fleet.Inventory.{lift_int}
use rodeo_cli.Fleet.Job.{
  HostJobRecord, FleetJob, record_to_dict, record_from_dict, add_record, hosts_to_dict, use_mapping,
  hosts_from_dict, to_dict, save_job, from_dict,
}

-- A state that was set.
abbrev pub has_state : HostJobRecord → Bool
has_state r = is_true r.state

or_else-true : (v w : Value) → is_true v ≡ true → or_else v w ≡ v
unfolding or_else
or_else-true v w h = rw (h) refl

add_record-record_to_dict :
    (hid : String) (r : HostJobRecord) (d : Dict HostJobRecord)
    → has_state r ≡ true
    → add_record hid (as_dict (record_to_dict r)) d ≡ (hid, r) ∷ d
unfolding add_record record_to_dict record_from_dict as_dict fields dict_of get get_or string_eq
    Dict.lookup
add_record-record_to_dict hid r d h =
    ap
      (λ s.
        (
          hid,
          record {
            state = s;
            started_at = r.started_at;
            finished_at = r.finished_at;
            tmux = r.tmux;
            last_error = r.last_error;
            detail = r.detail;
          },
        )
        ∷ d)
      (or_else-true r.state (Value.text "pending") h)

hosts_from_dict-hosts_to_dict :
    (d : Dict HostJobRecord)
    → all (λ f. has_state f.1) d ≡ true
    → hosts_from_dict (hosts_to_dict d) ≡ d
unfolding hosts_from_dict hosts_to_dict
hosts_from_dict-hosts_to_dict [] h = refl
hosts_from_dict-hosts_to_dict ((hid, r) ∷ d) h =
    rw (hosts_from_dict-hosts_to_dict d (ground arith))
      (add_record-record_to_dict hid r d (ground arith))

use_mapping-dict_of :
    (d : Dict Value) → use_mapping (mapping_or_empty (Value.dict (dict_of d))) ≡ ok d
unfolding use_mapping mapping_or_empty is_true dict_of as_dict fields
use_mapping-dict_of [] = refl
use_mapping-dict_of ((k, v) ∷ d) = ap (λ e. ok ((k, v) ∷ e)) (fields-dict_of d)

text_or-text : (py : Python) (s : String) → text_or py "" (Value.text s) ≡ s
unfolding text_or or_else str_of is_true is_empty
text_or-text py String.[] = refl
text_or-text py (String.◌∷◌ c s) = refl

text_or-some : (py : Python) (d s : String) → is_empty s ≡ false → text_or py d (Value.text s) ≡ s
unfolding text_or or_else str_of is_true
text_or-some py d s h = rw (h) refl

abbrev pub is_zero : ℤ → Bool
is_zero (pos zero) = true
is_zero _ = false

int_of-set :
    (py : Python) (c : ℤ)
    → is_zero c ≡ false
    → lift_int (int_of py (or_else (Value.int c) (Value.int (pos 4)))) ≡ ok c
unfolding lift_int int_of or_else is_true
int_of-set py (pos zero) h = cc
int_of-set py (pos (suc n)) h = ground arith
int_of-set py (negsuc n) h = refl

is_true-text : (s : String) → is_empty s ≡ false → is_true (Value.text s) ≡ true
unfolding is_true
is_true-text s h = ap not h

-- The job with the time of its last update.
abbrev pub updated : String → FleetJob → FleetJob
updated now job = record {
  workshop = job.workshop;
  inventory_path = job.inventory_path;
  started_at = job.started_at;
  concurrency = job.concurrency;
  hosts = job.hosts;
  updated_at = Value.text now;
}

-- A job that is saved and loaded again is the same job, updated when it was saved, where its start
-- is a time and the save's is too, its concurrency is not 0, and every host has a state.
pub from_dict-save_job :
    (py : Python) (now later : String) (job : FleetJob)
    → is_empty job.started_at ≡ false
    → is_empty now ≡ false
    → is_zero job.concurrency ≡ false
    → all (λ f. has_state f.1) job.hosts ≡ true
    → from_dict py later (save_job now job) ≡ ok (updated now job)
unfolding save_job to_dict get get_or string_eq Dict.lookup from_dict
from_dict-save_job py now later job s n c h =
    bind-of-ok _ _ (hosts_to_dict job.hosts) (use_mapping-dict_of (hosts_to_dict job.hosts))
    ∙ bind-of-ok _ _ job.concurrency (int_of-set py job.concurrency c)
    ∙ (rw
        (
          text_or-text py job.workshop,
          text_or-text py job.inventory_path,
          text_or-some py later job.started_at s,
          hosts_from_dict-hosts_to_dict job.hosts h,
          or_else-true (Value.text now) (Value.text job.started_at) (is_true-text now n),
        )
        refl)
