-- ===== src/Lib.antt =====
-- The credential vault: an agent asks for an HTTP request by the name of a credential, and the
-- vault checks it, adds the secret, sends it, and gives back a response without the secret.
--
-- The parts, and the files that model them:
--   internal/vault/fetch.go    Fetch, Fetch/Pipeline   the pipeline `Fetch` and its steps
--   internal/vault/host.go     Host                    canonical host names, the allowlist
--   internal/vault/dial.go     Dial                    denied addresses, resolve-then-pin
--   internal/vault/auth.go     Auth                    stripping and injecting headers
--   internal/vault/reflect.go  Reflect                 the scan of responses for the secret
--   internal/vault/validate.go Validate                what a stored credential must have
--   internal/vault/ratelimit.go Limiter                the token buckets
--   internal/vault/store.go    Store, Store/Audit, Store/Lifecycle  the vault and its audit log
--   internal/secret/secret.go  Secret                  the sealed file
--   internal/vault/idlelock.go IdleLock                the idle window
--   internal/server/approver.go Approver               the requests that wait for a human
--   internal/server/server.go  Server, Server/Handlers, Server/Planes  the two planes over HTTP
--   internal/server/guide.go   Server/Handlers         the handler of the guide
--   internal/gui/gui.go        Gui, Gui/Handlers, Gui/Running  the web app
--   component/component.go     Component               the vault as a part of the suite
--   cmd/vault/main.go          Cmd, Cmd/Serving, Cmd/Flags  the commands, and the headless server
--   internal/vault/model.go, internal/vault/errors.go  Model
-- The other files below these directories hold the proofs. Shared has the helpers that all use:
-- results with a bind, lists over the native numbers, Boolean tests. Text, Maps, Net, Codec and Http
-- write out what the program uses of Go's library: byte strings, maps as association lists, net.IP,
-- the encodings, and requests with the multiplexer of net/http. Tests has concrete data.
--
-- A text is the list of its bytes. A function that returns an error returns a `Result`; a method of
-- *Store takes the store and returns the new one beside its error, so that what stays in memory after
-- a failed save is seen. The file on disk is a field of the store. Every method of *Store runs under
-- the mutex, so it is one step; in `Fetch` the waits for the approval and for the upstream are the
-- places where other goroutines act, and what they do there is a parameter of the model (`World`),
-- as are the clock, the resolver, the approver and the transport. Random bytes are arguments, with
-- `none` where the source fails. A save of the file is a list of calls on the path and a temporary file
-- beside it; CreateTemp, Write, Sync, Close and Rename can each fail, and the Remove of the temporary
-- file does not. An answer has the strings that a reader of its JSON gets: Text/Utf8 puts U+FFFD for
-- what is not UTF-8.
--
-- Parameters that stand for code outside the repository: AES-GCM and argon2id (`Primitives`), JSON,
-- SHA-256 and the formats of numbers and times (`Library`), the parsers of URLs, addresses and IDNA
-- names, and the case mapping of texts beyond ASCII (`Parsers`). What a theorem needs of them is
-- among its hypotheses (`IsAead`, `HasDigests`, `HasFormats`, `CountsExactly`, and
-- `IsReadBack` of the one document that is written).
--
-- Every loop of the program runs over a list, so the models recur on that list and need no fuel.
-- The rate limiter counts in float64; the operations on those are parameters too (`Floats`). Response
-- headers are scanned as they were before the scan; the count of those that are dropped, which no
-- caller reads, is of that order. Sizes are natural numbers; the code's int and int64 are far larger
-- than the bounds in play, which are 10 MiB and below. Only the idle time is computed from what a user
-- gives, so Cmd/Flags computes it in 64 bits.
--
-- An approval is awaited by one goroutine and decided by another. Approver has a step for each
-- critical section and each select, and Approver/Steps runs them in any order. Auth/Order and
-- Fetch/Order forget the order of Go's maps, over which the loops on the agent's headers range.
--
-- The planes are handlers: functions from the server to the server and the response. The store of a
-- server is that of its engine, to which both fields of the Go struct point. A call of `Fetch` over
-- HTTP enters its request at the server's own approver, and the steps that are made there before and
-- from then on to its end are an argument (`Env`); whether the call comes to ask, and what, is
-- computed from the pipeline (`asked_by`). The web app holds a server while it is unlocked; its
-- requests, ticks and end are a list of events, so two requests never overlap there. A pipeline that
-- goes on with the old store behind a lock is not followed.
--
-- Not modelled: the dialling and listening; the timeout of the transport; the redirects of ServeMux
-- for paths that are not clean; what a failing listener reports; the HTML pages and the text of the
-- guide; the parsing of flags, prints and exit codes.
mod Shared
pub mod Text
pub mod Maps
pub mod Model
pub mod Net
pub mod Host
pub mod Dial
pub mod Secret
pub mod Codec
pub mod Auth
pub mod Validate
pub mod Reflect
pub mod Store
pub mod Limiter
pub mod Fetch
pub mod Approver
pub mod IdleLock
pub mod Http
pub mod Server
pub mod Gui
pub mod Component
pub mod Cmd
mod Tests
