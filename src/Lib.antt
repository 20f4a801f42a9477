-- ===== src/Lib.antt =====
-- Vestirust, a server that authorizes requests by the roles of its users, forwards them to web
-- applications and serves directories over webdav, encrypted where a passphrase is set.
--
-- The parts of the program and the files that model them:
-- - Model: the records and enumerations of src/configuration.rs, src/apps.rs, src/users.rs and
--   src/davs/model.rs (`Config`, `App`, `AppWithUri`, `Dav`, `User`, `HostType`).
-- - Configuration: `Config::from_file`, `to_file` and `to_file_or_internal_server_error`;
--   Configuration/Services: the map of `load_config`, with
--   `AppWithUri::from_app_domain_and_http_port` of src/apps.rs, and the extractor of `HostType`. A
--   host name leads to a service through the map. Configuration/Serde: the derived `Serialize` and
--   `Deserialize` of the records, over the values of Configuration/Values, with the defaults of
--   Configuration/Defaults. Configuration/Serde/Storage puts them in place of the encodings of
--   `Backend`, so that `IsStorage` and `IsUserJson` follow from `IsFormat` of serde_yaml and
--   serde_json and `IsDisk` of tokio::fs.
-- - Users/Accounts: the extractors of `User` and `Admin`, `local_auth`, `get_users`, `add_user`
--   and `delete_user` of src/users.rs; Users/Accounts/Session: the cookie that `local_auth` gives
--   out; Users/Authorization: `check_authorization`, `list_services`.
-- - Apps and Davs/Model: the handlers that list, add and delete apps and davs; Apps/Proxy:
--   `proxy_handler` of src/apps.rs; Davs/Handler: `webdav_handler` of src/davs/mod.rs.
-- - Server/Admin: the handlers below /api/admin of src/server.rs. A handler extracts the
--   configuration from the file, then the admin from the cookie, then its path or its body, and
--   writes the changed configuration back; Server/Admin/Tasks: such handlers at the same time, as
--   steps in any order. Server/Routes: the tables of routes of the website; Server/Website: its
--   handlers with their extractors and the jar of the cookies. Server/Routing: the dispatch to the
--   proxy, to webdav or to the website by the host's service. Server/Build: `load_config`,
--   `Server::build` and a request to the built server, which joins all of these.
-- - Main: the loops of src/main.rs, with TLS and without; Main/Entry: `main` up to them;
--   Main/Domains: the domains that certificates are asked for; Main/Broken: a configuration that
--   neither a reload nor a start survives.
-- - Davs/EncryptedStreamer, Davs/Streamer, Davs/Headers: the files of the same names in
--   src/davs/.
-- - Davs/Webdav: of src/davs/webdav_server.rs, Paths (`extract_path`, `encode_uri`), Ranges
--   (`parse_range` and the range of `handle_send_file`), Response (the responses' helpers),
--   SendFile (`handle_send_file`), Upload (PUT, DELETE, MKCOL), Copy (`do_copy`), CopyMove (COPY,
--   MOVE), PathItem and Propfind (PROPFIND, PROPPATCH, LOCK), Listing (the search and the zip of a
--   directory) and Dispatch (`handle`, `call`). FilePath is what they use of `std::path`, and
--   FileSystem the interface of `tokio::fs`. A file is sent through one of the two streamers.
-- - Prelude: lists, tables with a key, slices of lists, words of 64 bits, texts. Tests: runs of
--   the theorems on concrete values.
--
-- State. A handler takes the state of the file system and returns it with its reply. A reader is
-- the list of the bytes that it still gives, and whether it then fails; a stream is the list of
-- what it yields; a response is a record of status, headers and body. Numbers of type `u64` are
-- natural numbers whose additions and subtractions wrap around as in a release build. A reload that
-- is sent on the channel is an answer of its own, `reload_sent`, of the website, and an event of the
-- loops of Main.
--
-- Other crates are parameters: `Backend` (files, serde_yaml, serde_json, Argon2), `UriApi` (http),
-- SHA-256, `StreamCipher` (chacha20poly1305), `ReadSize` (how many bytes a read gives), `Texts`
-- (mime_guess, httpdate, urlencoding), `FileSystem` (tokio::fs, async_walkdir), `Libraries`
-- (percent-decoding, XML, JSON, dates, archives), `RouterApi` and `WebApi` (how axum matches paths
-- and methods, its extractors, the signed cookies), `HttpApi` and the client of the reverse proxy.
-- What is assumed of them is in `IsStorage`, `IsUserJson`, `IsFormat`, `IsDisk`, `IsPasswordHash`,
-- `IsSigned`, `IsStream`, `IsRead`, `Stores`, `HasNames` and `IsBounded`. What a request draws (salts, nonces,
-- uuids, the time, the key of a server) is an argument, `Chance` for the webdav server.
--
-- Fuel. A loop that reads takes one more than the bytes left to read, as each round reads at least
-- one byte or ends. `do_copy` takes fuel for how deep it recurs: each directory makes the path
-- longer, and the system refuses to read a directory whose path is longer than its limit, so two
-- more than that limit is enough.
--
-- Not modelled: the set-up of TLS, of the certificates and of the sockets, which are calls of other
-- crates (whether a listener can be bound, and what then happens, are arguments of `main`); the
-- logger, the random strings, the mocks and the frontend, which have no logic of the server. A
-- request is one step, but for an admin request in Server/Admin/Tasks and Server/Admin/Races, whose
-- extractors and handler are one step each. What another task reads of a file that is written only
-- in part, and requests that change the same files of a dav at the same time, are not modelled.
pub mod Prelude
pub mod Model
pub mod Configuration
pub mod Users
pub mod Apps
pub mod Davs
pub mod Server
pub mod Main
pub mod Tests
