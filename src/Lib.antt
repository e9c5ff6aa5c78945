-- ===== src/Lib.antt =====
-- go-webssh, a web terminal with its command line client: what it decides, modelled function by
-- function, with the theorems that make it correct.
--
-- The parts and how they interact. A request is recognised by its cookie (Auth). The destinations
-- that the server may connect to are a network policy (Security/Policy), built from the entries of the
-- configuration (Config). A terminal session (Ws/Session) asks the policy and then the SSH client
-- (Ssh), a tunnel (Ws/Tunnel) asks the policy for the address that it dials, and both take a place
-- under a limit (Ws/Limit). Credentials are kept sealed in a database (Vault), which the
-- HTTP handlers (Http) reach behind a guard. The client (Cli) builds the request of a session and
-- relays a terminal or a tunnel; what it sends is what the server's functions then read, so that
-- theorems on both ends are about their composition.
--
-- Where each part stands (paths from the repository's root):
--   Security/Policy.antt   internal/security/network_policy.go. `new_network_policy` is
--                          NewNetworkPolicy, `check_addr` is checkAddr, `resolve_allowed_host_port`
--                          is ResolveAllowedHostPort, whose loop over addresses is `check_resolved`.
--   Auth.antt              internal/auth/auth.go: `login`, `logout`, `session_from_request` and what
--                          they call. The store is a state that is passed along.
--   Auth/Store.antt        the session store of the same file; Auth/Store/Trace.antt has its
--                          operations in any order.
--   Config.antt            internal/config/config.go: `default` is Default, `apply_raw`, `apply_env`
--                          and `apply_flags` its overrides, and `validate` (Config/Validate.antt) is
--                          Validate, with the configuration that it leaves behind as its result.
--   Ssh.antt               internal/sshclient/client.go: `connect` is Connect, with what it opens and closes.
--                          Ssh/Metrics.antt has metrics.go beside it and the rounds of streamMetrics
--                          of internal/ws/handler.go.
--   Ws/Origin.antt         checkOrigin and clientIP of internal/ws/handler.go.
--   Ws/Limit.antt          reserveSession and reserveTunnel of internal/ws, as atomic steps (`step`) that
--                          a schedule interleaves, and as one loop without interference (`reserve`).
--   Ws/Connect.antt        the checks of handleConnect in internal/ws/handler.go.
--   Ws/Session.antt        handleConnect, cleanup and the loops over a client's messages of that file.
--   Ws/Tunnel.antt, Ws/Relay.antt
--                          internal/ws/tunnel.go: admission and connection, and the relay, whose way
--                          back is Ws/Relay/Back.antt.
--   Ws/Protocol.antt       the messages of internal/ws/protocol.go, as decoded values.
--   Vault.antt             internal/vault/vault.go: sealed records, `put_for_user`, `get`, `delete` and
--                          `migrate`, over the two buckets as association lists. Vault/Open.antt has
--                          Open and the master key file, Vault/Listing.antt the lists.
--   Http.antt              internal/httpserver/server.go: the guard and the handlers of credentials;
--                          `handle` is a request on one of their routes. Http/Account.antt has login,
--                          logout and session.
--   Security/HostKey.antt  internal/security/hostkey.go.
--   Themes.antt            themes/catalog.go.
--   Cli/Destination.antt, Cli/Saved.antt, Cli/Url.antt, Cli/Run.antt
--                          internal/cli/cli.go: ParseDestination, matchSaved and fetchSaved,
--                          newClient and the URLs, and Run up to its request (`run_request`).
--   Cli/Flags.antt         cmd/webssh-cli/options.go.
--   Cli/Session.antt, Cli/Tunnel.antt, Cli/Doh.antt
--                          session.go, tunnel.go and doh.go of internal/cli.
--   Net.antt               net/netip as far as the program uses it.
--   Text.antt, Dict.antt, Int.antt, Base.antt
--                          strings, maps with text keys, signed integers, lists and results.
--
-- What is outside. Code of other packages is a parameter with its documented behaviour as named
-- hypotheses: `Netip` (parsing and printing of addresses, DNS), `Crypto` (Base64, HMAC, AES-GCM, JSON,
-- bcrypt), `Ssh` (golang.org/x/crypto/ssh), `Files` (the file system and knownhosts), `Library` (the
-- vault's AES-GCM, JSON and Argon2), `Floats` (numbers of type float64), `Casing` (comparison of the
-- names of credentials without regard to case), and the records `Platform` of Vault/Open and Cli/Run
-- (files, random source, terminal). Each has a concrete instance in the tests. The methods that write
-- and read a Credential as JSON count as part of `Library`, and the time in a ping is a whole number.
-- A database transaction
-- either happens as a whole or not at all, and the database itself does not fail. Strings are lists of
-- code points; case mapping covers what maps into ASCII. Times are nanoseconds; in Cli/Doh.antt time passes
-- only while a query waits. A stream is the finite list of what its reads return, and a connection fails at
-- the end of the frames that it is given. Recursion is structural, so no fuel
-- is needed but for the decimal digits of a number, where Text/Decimal.antt shows that it suffices, and
-- for the loop of writeAll, where the length of the payload suffices (Ws/Relay/Laws.antt).
-- Goroutines that run loops side by side, static files, the client's login request, its
-- cookies and its private TLS connection are not modelled. The browser's code, logging, the terminal and process
-- start-up are left out, since they decide nothing that these parts depend on.
pub mod Base
pub mod Int
pub mod Text
pub mod Dict
pub mod Net
pub mod Code
pub mod Security
pub mod Ssh
pub mod Auth
pub mod Config
pub mod Vault
pub mod Ws
pub mod Themes
pub mod Cli
pub mod Http
