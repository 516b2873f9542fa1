-- ===== src/Lib.antt =====
-- dsh-api hosts Minecraft servers for tenants: an HTTP API over one SQLite database and one
-- Kubernetes cluster. This library models the services behind the API and proves what the tenants
-- rely on.
--
-- The parts and their files, with the source in src/dsh_api of the repository:
--   Prelude             lists, texts, dicts and tests, and the lemmas on them
--   Action              handlers that change a state and may raise: `Act S A`, `attempt` for
--                       `try`/`except`, and the exceptions as the type `Error`, with their texts
--                       in `Action.Texts`; `Action.Atomic` has the rules for handlers that leave
--                       a part of the state alone
--   Db                  db.py: the tables of `SCHEMA` as a record of lists, and one function for
--                       each method of `Database`; a method is one transaction
--   Cluster             cluster.py: `ClusterBackend` as an interface over the state of all that
--                       lies outside the process, `FakeClusterBackend` as an implementation, and
--                       `StatefulSetStatus.state`; `server_state` of service.py; `Varint` has the
--                       server list ping, `Ping` proves what it keeps
--   Config              config.py: `Settings.is_admin`, `hostname`, `sslip_hostname`, `api_url`,
--                       and `split_csv`
--   Plugins, Selection  plugins.py and selection.py: jar names, the default selection, and the
--                       JSON text of a selection; `Plugins.Describe` has what the portal shows
--                       of a default plugin
--   Catalog             catalog.py: an entry, and the interface `PluginCatalog`; `Dpc` has
--                       `parse_dpc` and `extras_from_defaults`, `Cache` the classes `DpcCatalog`
--                       and `FakeCatalog`, `Keyed` proves
--   Server              service.py: `ServerService`. `Reads` has `list` and `get`, `Create`,
--                       `Wake` and `Delete` the requests and the jobs they submit, `Recover` the
--                       restart; `Safety`, `Provision`, `Admission`, `Isolation`, `Deleting` and
--                       `Recovery` prove
--   Plugin              plugin_service.py: `PluginService`. `Resolve` has the queue of `add`, `Reads`
--                       the `view`, `Listing` the catalog, `Service` the changes; `Closure`,
--                       `Covering`, `Choosing`, `Changing`, `Failing`, `Removing` and
--                       `Restarting` prove
--   Feedback            feedback.py: `FeedbackService`, and its rate limit
--   Export              export_pod.py: `extract_export` and the names that it lets through, in
--                       `Names`, `Unpack`, `Unpacked` and `Flat`; export_service.py:
--                       `ExportService`, with `Exporter` for its state and guards, `Area` for
--                       `validate_area`, `Requests` for the requests, `Links` for the signed links
--                       with `Base64` for `_b64` and `_unb64`, `Summary` and `Run` for the job and `Sweep` for the housekeeping;
--                       `Settles`, `Swept`, `Sweeping`, `Interrupted`, `Owned`, `Starting`,
--                       `Unpadded`, `Linked` and `Downloads` prove; the table of the exports
--                       is in `Db.Exports`, its limits in `Db.ExportLimit`
--   Mojang              mojang.py: what the lookup of a UUID makes of a reply
--   Http                main.py and auth.py: `Validation` has the checks of a body and
--                       `validate_name` of service.py, `Login` the header and the validators,
--                       `Errors` the replies to exceptions, `Routes` the routes of one server;
--                       `Access` and `Labels` prove
--   Script              export/dsh_world_export.py, the script in the export pod: `Level`
--                       has `read_level_name`, `Box` the class `Area`, `Snapshot` the copy of a
--                       world that is being written; `Regions`, `Copied`, `Picture` and `AtRest`
--                       prove
--   Tests               concrete runs, most of them over the cluster in memory
--
-- How the parts meet: a service is a function of `World C`, which holds the database, the jobs that
-- were submitted, the instant of the call, and `C`, the state outside of the process. The backend
-- is a parameter of each service, so a theorem holds for every cluster that the interface allows,
-- also for one whose every call fails. A job is a value of `Job`; `run_provision` and `run_remove`
-- run one. The server's thread, other requests and other jobs act between the transactions: where
-- `create`, `delete` and a selection change wait for the cluster or a lock, `meanwhile` is what the
-- others did to the database, and `Db.Slots` has every sequence of transactions.
--
-- Numbers: an instant is in microseconds, a stamp of the database in whole seconds, as `now_iso`
-- writes it. Subtraction stops at 0, so the hour before the clock's first hour starts at 0.
--
-- Fuel: `resolve`, the queue of `PluginService.add`, runs on fuel. `enough` is two more than the
-- number of names that all entries of the catalog require together: each step takes one name off
-- the queue, and an entry puts its names on it once.
--
-- Hypotheses and parameters: sha256 of hashlib is any function of texts. Path.exists, the UUID
-- lookup and the generator of credentials are operations of the backend's interface. The catalog
-- is read through its interface. The class `\d` of Python's patterns is any test of characters,
-- and a tar is the list of its members with the error that reading it ends with. `lower` is that
-- of ASCII texts. `json.loads` is any function from texts to `Json`. hmac and the coding of texts
-- are the record `LinkCodec`; that a payload comes back from its bytes is in the hypothesis
-- `IsCarried`. Removing a directory never fails, and a file that a read error cuts short is not
-- among the files of the disk. `jwt.decode`, `str.isspace`, the fetch of DPC's API, the clock of
-- the cache and the `str` of JSON that is no text are parameters. So are the world that the script
-- copies, at each instant, and `shutil.copyfile`, which takes its time; a look at a file takes one
-- tick of the clock.
--
-- Not modelled: the other routes of main.py; the manifests of export_pod.py
-- and the rest of the script in the pod; that `ServerService` calls `forget_server` once it has
-- deleted a server; the argv, manifests and HTTP of `KubectlHelmBackend`.
mod Prelude
pub mod Action
pub mod Db
pub mod Cluster
pub mod Config
pub mod Plugins
pub mod Selection
pub mod Catalog
pub mod Plugin
pub mod Server
pub mod Feedback
pub mod Export
pub mod Script
pub mod Http
pub mod Mojang
mod Tests
