-- ===== src/Lib.antt =====
-- The repair automation of this repository, portal/: product failures become incidents, an incident
-- becomes a repair, and a repair is carried through an issue, a coding session, a pull request, an
-- independent verification and a human merge.
--
-- Parts, and the files that model them:
-- - Prelude: the tests, lists and texts that the parts share.
-- - Incidents: portal/incidents.py. `observe` and `drain` are IncidentStore._observe and drain, on
--   the tables as lists in the order of their rows; `observe_outcome`, `observe_signature`,
--   `observe_finding`, `admit_telemetry`, `ingest`, `store_evidence` and `fold_into` are the stages
--   of _observe_telemetry and _ingest. A transaction that is rolled back is a stage that
--   answers the tables it was given. SHA-256 is the parameter `digest`.
-- - Repairs: class RepairStore of portal/controller.py, one function per method, on a record of the
--   tables.
-- - Controller: class Controller of portal/controller.py, one module per stage of a repair. A method
--   is a function from the database and the world to a result or an exception, with the database
--   and the world that it leaves: what was written before an exception stays written. The providers,
--   the verifier, the clock and the texts of portal/brief.py are parameters, whose
--   calls return or raise what portal/transport.py names; the fault `died` is an exception that no
--   handler names, such as the end of the process. Writes that leave the process are logged in
--   `sent`.
-- - Registry: the tables of portal/validator.py that say which cases and assertions answer a family.
-- - Verification: portal/verification.py. Scope, Grading and Provenance are its pure rules, Candidate
--   its checks of a pull request and of a merge, Records class VerificationStore, and Verifier with
--   Pieces class Verifier. GitHub, the runner, the replay, the disk and the clock are parameters
--   (`Outside`), and so are `Path.resolve` and `repr` (`Host`). The local variables of `verify` are
--   part of its state (`Frame`), because its `except` and `finally` read them.
-- - Notifications: portal/notify.py. Ledger is class NotificationLog, one function per method, and
--   Notifier class Notifier: its construction, `publish`, `deliver_due` and both wires. The channel,
--   the clock, the redaction and the layout of a card are the parameter `Slack`. An exception there
--   is caught by the method, whatever it is; the end of the process between a request and the
--   settlement of its row is not in the model. Requests are logged in `posts`.
-- - Acceptance: the controller with that verifier in the place of its parameter `verify`.
-- - Methods: the methods of Verification, in a form that any state can take.
-- Controller.advance reads the incidents that Incidents keeps (`incident_of`), changes the tables of
-- Repairs, and calls the providers.
--
-- Bounds and fuel: no definition has fuel. Numbers are unbounded, as Python's are; times are
-- milliseconds, and an ACU is a thousandth of one.
--
-- Not modelled: routes, the clips, corrections and wording of portal/notify.py, the browser monitor,
-- the scripts, the replay that the verifier is handed (portal/validator.py and portal/isolation.py
-- run the product under test), and the loop of portal/worker.py.
mod Prelude
pub mod Methods
pub mod Registry
pub mod Incidents
pub mod Repairs
pub mod Controller
pub mod Verification
pub mod Notifications
pub mod Acceptance
