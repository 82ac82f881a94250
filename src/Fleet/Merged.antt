-- ===== src/Fleet/Merged.antt =====
-- What a reader of workshop.yaml finds after merge_provisioned_hosts of rodeo/fleet/inventory.py.
use rodeo_cli.Base.{String, Option, List, [], string_eq}
use rodeo_cli.Base.Dict
use rodeo_cli.Base.Dict.{Dict, lookup-insert}
use rodeo_cli.Portal.Python.{Python}
use rodeo_cli.Config.Value.{Value}
use rodeo_cli.Fleet.Provisioned.{Entry, Merge, index_entries}

abbrev start : Merge
start = record { by_id = []; order = []; written = [] }

-- The entry that a reader finds under an id: the last one, as entries replace those before them.
unfoldable pub entry_at : Python → String → List Value → Option Entry
unfolding index_entries
entry_at py j l = Dict.lookup j (index_entries py l start).by_id
