-- ===== src/Lib.antt =====
-- kaguya: authentication and access control for a Lore server, as two services.
--
-- kaguya-auth (auth/src) is a gRPC service. It verifies identity tokens of one OIDC provider and of
-- its own, issues the tokens that loreserver accepts, and keeps who may do what on which repository.
-- Its parts, and the files that model them:
--   auth/src/store.rs        Auth/Store     the tables in SQLite, `record_owner` to `list_grants`;
--                                           in Store/Reads the SELECTs that SQLite fails
--   auth/src/sessions.rs     Auth/Sessions  logins of the device flow, in memory
--   auth/src/verify.rs       Auth/Verify    `OidcVerifier` with its cached keys, `SelfVerifier`,
--                                           `Identity`, `verify_with_jwks`
--   auth/src/verify.rs,
--   auth/src/keys.rs         Auth/Claims    the claims of tokens, `canonical_subject`
--   auth/src/keys.rs         Auth/Keys      `Signer::mint`; in Keys/Files `load_or_generate` and the
--                                           `publish` of jwks.rs, on files
--   auth/src/jwks.rs         Auth/Jwks      `fetch_jwks`
--   auth/src/oidc_device.rs  Auth/Device    the client of the device flow
--   auth/src/main.rs         Auth/Server    the state that the handlers share, `bearer`, `grant`
--                            Auth/Rebac     `RebacApi`: `create_resource`, `delete_resource`
--                            Auth/Service   `UrcAuthApi`: permissions, logins, exchanges; in
--                                           Service/Reads those that read the store, each SELECT
--                                           under a lock of its own
--                            Auth/Admin     `run_admin`
--                            Auth/Stubs     the calls that read nothing
--                            Auth/Main      `main`, up to the services that it serves
--                            Auth/Requests  the same calls with requests in flight, step by step
-- kaguya-web (web/src) is the web frontend: a login with the authorization-code flow, sessions in
-- cookies, and a listing of repositories. It presents the provider's token to kaguya-auth, and the
-- token that it gets to loreserver.
--   web/src/main.rs          Web/Store      logins in flight and sessions
--                            Web/Cookies    `session_id`, `session_cookie`
--                            Web/Handlers   `login`, `callback`, `logout`, `me`, `repos`
--                            Web/Main       the configuration, the routes and what they call
--                            Web/Requests   the handlers with requests in flight, step by step
--   web/src/oidc.rs          Web/Oidc       `Oidc`
--   web/src/authsvc.rs       Web/AuthClient `AuthClient`
--   web/src/lore.rs          Web/Lore       `list_repos`, `set_bearer`, `set_repo_scope`
--                            Web/Hex        `hex`, `from_hex`
-- The functions keep their names. Base has the lists, texts, maps and the state-and-error monad that
-- the two share; the theorems about a component stand in the files below its own.
--
-- A method is a function of its state that gives its result beside the state it leaves, after a
-- failure too. A `HashMap` is the entry at each key, a table a list of rows, a clock an argument or
-- a part of the outside world. Whatever is a crate's (reqwest, jsonwebtoken, tonic, rand, the
-- clocks) is a field of the record `Crates` of Auth/Crates or Web/Crates, over which every
-- definition that calls it is generic; the records `JwtLaws` of Auth/Service/OwnTokens and
-- `KeyLaws` of Auth/Main/Serving state what jsonwebtoken documents, each for the one result that
-- relies on it. Where the web client meets the service, the record `IsServed` of
-- Web/Handlers/Accounts says that the one is served by the other. SQLite answers each statement that
-- changes the tables as the list `outcomes` says, and std::fs each call, `Path::exists` included, as
-- the list `faults` says. A SELECT is a `Reading`: the tables at its moment, and whether SQLite
-- refuses it, when the method panics, or which rows it cannot read, which the method leaves out. The
-- permission queries and the exchange take a reading for each of their SELECTs; Service/Alone and
-- Service/Queries say what they are on one state of the tables, and the exchange that Auth/Service
-- has for this, and that the web client is composed with, is that. A mutex makes each method of a
-- store one step, so a run is a list of calls. Where a handler awaits an answer, others
-- run: in Auth/Requests and Web/Requests a handler is a thread over the state that the service
-- keeps, `Move` has its steps, and Base/Threads says what is reached when one request moves at a
-- time. A failure of the outside is a step that can be taken at any time.
-- The admin commands are another process on the same database: Auth/Store/Processes has the two as
-- steps of one statement each. The repository's own tests of store.rs, sessions.rs, oidc_device.rs,
-- verify.rs, keys.rs and jwks.rs are programs on the model, in Auth/Tests, where they pass; those
-- that sign tokens run with a stand-in for the RSA keys, and the one that parses a key set with one
-- for serde_json.
--
-- Bounds. Seconds are natural numbers, and an expiry that is read as an `i64` is the two's
-- complement of its 64 bits. The stream of repositories is read with a fuel, since the server may
-- never end it; a fuel above the number of its messages is enough. Decimals are printed with 20
-- digits at most, and a `u64` has no more. An `Instant` is a number of nanoseconds without an upper
-- end.
--
-- Not modelled: SQLite's opening of the database file, the listeners, axum's matching of a path to
-- a route and the static files, what is printed, the generated code of the protocol buffers, the
-- operation scripts. The random numbers and bytes, SHA-256 and base64 are parameters, since each is
-- one call of a crate. A network failure is an error of the crate's call. SELECTs that SQLite fails
-- stand in Store/Reads and Service/Reads alone: `delete_resource`'s check of the owner, the listing
-- of the admin commands, the requests in flight and the web client's service read with `role_for`,
-- `accessible` and `list_grants`, which are the readings at which nothing fails. That a panic poisons
-- the store's lock, after which every call of the store panics, is a reading that SQLite refuses.
pub mod Base
pub mod Auth
pub mod Web
