-- ===== src/Lib.antt =====
-- rodeo-cli: a verification library beside the code.
--
-- rodeo-cli deploys training labs on virtual machines and hands them out to students. A lab is
-- deployed by a pipeline of phases that a profile names; what is finished is recorded in a state
-- file, so that a run can resume. A claim portal, a small web service over SQLite, gives each
-- student one lab, a personal link and a way back by email and PIN.
--
--   * Base: Python's ==, conditionals, dicts, lists and table rows, with the lemmas that the parts
--     share. Base.Rows has the laws of SELECT and UPDATE by a column.
--   * Portal: rodeo/portal/claims.py over the tables of rodeo/portal/db.py. Db holds the tables and
--     what SQLite checks when a statement writes; Tx has write_tx, with BEGIN, COMMIT and ROLLBACK, as
--     actions that may raise; Text and Pin the patterns and the rules for PINs; Settings, Students,
--     Roster and Instructor one function for each function of claims.py, with the same guards in the
--     same order. Requests puts all of them into one type of requests. Claiming, Assignment, Recovery,
--     Lockout, Return, Moves, Removal, Publishing, PinRules and Requests.Sound are proofs.
--   * Web: Limiter is RateLimiter of rodeo/portal/web.py. Server has its do_POST, and its do_GET for the
--     links of students and of the instructor, over the tables of Portal. Counted, Limited, Fresh,
--     Pruned and Window are proofs.
--   * Pipeline: State is rodeo/state.py, Profile the bundled profiles of rodeo/profiles/, Runner the
--     loop of DeployRunner.run in rodeo/engine/runner.py with run_phase of rodeo/profiles/base.py, Vars
--     what _write_vars_file refuses there,
--     Status the phases of rodeo/service/status.py, and Registry rodeo/profiles/__init__.py and
--     rodeo/providers/registry.py. Steps gives the loop as a relation; Records, Rounds, Resume,
--     Failure, Recorded, Starting, Prepared, From, Completion and Registered are proofs.
--   * Config: Value is what YAML reads, with what Python's bool, str, repr, int and `or` make of it;
--     Merge and Validation are rodeo/config.py, and Source is rodeo/install_source.py. Precedence,
--     Paths and Validated are proofs.
--   * Fleet: a workshop of hosts. Inventory, Hostname, PortalBlock, Loading, Selecting and Provisioned
--     are rodeo/fleet/inventory.py: its records, patterns, the `portal:` block, load_inventory, the
--     selection of hosts, and what provisioning writes. Job is rodeo/fleet/job.py with the access
--     sheet of rodeo/fleet/access.py, and Fanout is rodeo/fleet/fanout.py. Hosts, WellFormed, Selected,
--     Keyed, Written, Merged, Jobs and Gathered are proofs.
--   * Topology: Nodes renders the nodes of a definition, and Cables makes of them the flat MACs and the
--     data for PXE, the firewall and DHCP; both are rodeo/inventory.py. Rendered and Reserved are
--     proofs.
--   * Drift: Plan is the last part of rodeo/inventory.py, the rows and flavors of a plan's VMs, and
--     Report is rodeo/drift.py. Reported and Affected are proofs. The runner takes the phases and the
--     lines of the report from its engine.
--   * Cloud: the table of rodeo/providers/instance_catalog.py and how a type is found in it.
--   * Planning: Sizing is rodeo/sizing.py, with the budget of Instruqt hosts; Instances is
--     rodeo/instances.py, several instances of a lab on one host, with the plan's keys in Options.
--     Taken, Budget, Disjoint, Shifted and Moving are proofs.
--   * Tests: runs at concrete data, and each theorem applied once.
--
-- Parameters. Portal.Python holds what the code takes from the interpreter: case mapping, decimal
-- digits, int, str and repr, SHA-256, HMAC, scrypt and hex. What is drawn at random, and the time,
-- are arguments of the operations. The float product `int(host_cpus * 0.70)` of sizing is a
-- parameter, and so are ipaddress.ip_network and two-digit hex of instances, and what plugins
-- register. Pipeline.Engine holds the world and what acts on it: Ansible, the methods of the runner
-- that do the work of a phase, drift detection and the collections. A phase yields log lines and
-- progress while it works, ends with a return code or an exception, and leaves a world; nothing else
-- is asked of it. _write_vars_file is refused as in the code for a credential or a checksum that is
-- missing; its other part is the engine's, and may raise. That the start of ansible-galaxy or the
-- reading and writing of state files raises is not modelled.
--
-- Topology.Nodes.Renderer holds uuid5, str.format and the upper-case hex of a number.
--
-- Fleet.PortalBlock.Disk holds the paths and files that the inventory asks for, with what yaml.safe_load
-- makes of them. What git and the package say of the release, the known targets, the checks of the AWS
-- provider and of the content block, libvirt's answers, and the order in which workers finish are
-- arguments.
--
-- Choices. A row of claims has the type of its columns; NULL is `none`. A text is a list of code
-- points, as in Python. The state files are the values that YAML reads from them. The loops are
-- structural recursions, so no fuel is needed. Events carry no times. The clock of the web server
-- counts in natural numbers. Requests are served one after another: BEGIN IMMEDIATE admits one writer
-- at a time, and that another request counts a failure between the check and the failure of one is not
-- modelled.
--
-- A YAML mapping has texts as keys; a float or a date is known by what str, bool and int make of it.
-- Addresses in a plan are texts, and amounts of memory and vCPUs in the drift report are natural
-- numbers, 0 on the host's side where they are unknown.
--
-- Not modelled: HTML and HTTP of the web server, the command line and its screens, the builder, the
-- cloud providers' calls, SSH, libvirt and Kubernetes work, Jinja, and the loading of story content.
-- These are I/O around the parts above.
pub mod Base
pub mod Portal
pub mod Pipeline
pub mod Cloud
pub mod Config
pub mod Drift
pub mod Topology
pub mod Web
pub mod Fleet
pub mod Planning
pub mod Tests
