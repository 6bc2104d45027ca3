-- ===== src/Lib.antt =====
-- The federated coordinator of a threat-hunting platform. Organisations train XGBoost models on their
-- own data and send them, signed, to a coordinator, which scores the contributions, merges the
-- accepted models into a global one, lets it soak, and publishes it to the organisations.
--
-- The parts, and where each is modelled:
--
-- Store (coordinator/store.py): the SQLite database. `Store.Rows` has a record for each table's rows and
-- `Store` for all tables; `Store.Orgs`, `Store.Challenges`, `Store.Tokens`, `Store.Rounds`,
-- `Store.Contributions` and `Store.Models` have a function for each method of CoordinatorStore, named
-- as there, from the store before to the store after. An UPDATE is `update` on the rows that fit, a
-- query `find` or `select`, ORDER BY a stable sort. A method runs under the store's lock, so it is one
-- step.
--
-- Trust (coordinator/trust.py): `evaluate` is TrustManager.evaluate. Aggregation
-- (coordinator/aggregation.py): `merge_xgboost_models`, on the part of a model's JSON text that the
-- code reads and writes. Audit (coordinator/audit.py): the hash chain of AuditTrail. Security
-- (coordinator/security.py): roles, permissions, API keys and tokens of operators. Attestation
-- (flproto/attestation.py): the signed messages.
--
-- Ca (flproto/ca.py): issuing and checking certificates, revocation lists; `Ca.Setup` is init_ca and what
-- reads its directory back. Mtls (coordinator/mtls_middleware.py): `extract_verified_org_id` finds the
-- organisation that a request's certificate proves, and `identify` is the middleware with the
-- dependency of an endpoint. SealBox (flproto/seal_box.py): seal and unseal. Dashboard
-- (coordinator/dashboard.py): the session cookie and the guard of the pages.
--
-- Client (client_ref/fl_client.py): what a client signs and which downloads it accepts;
-- `Client.Session` is FLClient around the HTTP calls. Privacy (client_ref/privacy.py): the noise that a
-- client adds to its model.
--
-- Dataset (flproto/dataset.py): the reader of libsvm files, for the validation set and for clients.
--
-- Api (coordinator/api.py): the request handlers over all of these. `World` is what handlers change (the
-- store, the audit trail, the revocation list in memory, the files on the disk) and `Env` what they
-- only read: settings, keys and libraries. A handler returns a `Reply`, a body or the status of its
-- error, and the world after it; one that fails half-way keeps what it has done. `Api.Auth` has the
-- guards, `Api.Orgs` the changes of an organisation's status, `Api.Enroll` enrolment by an operator and
-- the minting of tokens, `Api.SelfEnroll` enrolment with a token, `Api.Leave` an organisation's request
-- to leave, `Api.Contribute` the intake of a contribution, `Api.Rounds` the start of a round and how it
-- is joined, `Api.Aggregate` the aggregation of a round, `Api.Models` publishing and rollback, and
-- `Api.Serve` the signed models that organisations fetch.
-- submit_contribution has one `await` between its checks and its writes, so it is two functions, and an
-- interleaving of requests is a sequence of them; each other handler runs without an `await`.
--
-- Each component's proofs stand in the modules below it, runs on concrete data in `Tests`, and the helpers
-- that all share in `Prelude`.
--
-- Conventions. A call's clock reading is its argument `now`: milliseconds, one reading for a request.
-- Trust scores are hundredths, hours thousandths, and accuracies exact quotients: the rounding of
-- floating-point numbers is not modelled. Byte strings are texts. Writing a file succeeds. Every loop is structural recursion on
-- a list, so there is no fuel, and every function is total. XGBoost, JSON, SHA-256, base64, Ed25519,
-- X25519, PEM, X.509 encoding and the JWT library are parameters; so are the random numbers, keys and
-- serials that a call draws.
--
-- Not modelled: the dashboard's templates, the wiring of the application from files and the environment
-- (coordinator/app.py, coordinator/init_ca.py), logging and deployment, which are presentation and I/O;
-- local training and the generation of keys, which are calls of libraries.
pub mod Prelude
pub mod Dataset
pub mod Store
pub mod Trust
pub mod Aggregation
pub mod Audit
pub mod Security
pub mod Attestation
pub mod Client
pub mod Ca
pub mod SealBox
pub mod Privacy
pub mod Mtls
pub mod Api
pub mod Dashboard
pub mod Tests
