-- ===== src/Lib.antt =====
-- Nise & Go: the runtime packages that decide who may do what, and the reference application's booking
-- of shared equipment.
--
-- The program is a foundation for web applications: a small runtime, a command line that generates
-- applications, and a reference application. A request passes the edge (runtime/forwarded says who
-- asks), the session (runtime/session says whether the token still stands), authorization
-- (runtime/authz says what the account's roles grant), and the use case; listings answer with signed
-- cursors (runtime/pagination), and every response carries the security headers of its policy
-- (runtime/secure). A use case does its writes in a transaction (runtime/transaction); accounts keep a
-- password hash (runtime/password). The process runs a group of components and tears it down as one
-- (runtime/lifecycle), and answers the probes of its orchestrator (runtime/health). An optional module
-- checks one-time passwords (modules/totp). The command line accepts a project's name and module path
-- (internal/generator). The reference application's use case is the reservation of a resource, whose
-- state machine and table are modelled with the SQL statements that change it.
--
-- Which file models what, with paths from the repository's root:
--   Session.Lifetime      runtime/session/lifetime.go: NewLifetime, Evaluate, IsActive, NeedsTouch
--   Session.Freshness     runtime/session/freshness.go: windows of proof
--   Session.Token         runtime/session/token.go: New, Parse, Digest, EqualDigest
--   Session.Csrf          runtime/session/csrf.go: CSRFToken, VerifyCSRF
--   Session.Cookie        runtime/session/cookie.go: NewCookiePolicy and its validation
--   Pagination.Key        runtime/pagination/key.go: keys and key rings
--   Pagination.Frame      runtime/pagination/cursor.go: the length-prefixed message that is signed
--   Pagination.Binding    runtime/pagination/cursor.go: NewBinding
--   Pagination.Cursor     runtime/pagination/cursor.go: Encode, Decode
--   Pagination.Decimal    runtime/pagination/request.go and report.go: decimalValue, digitsIn
--   Pagination.Request    runtime/pagination/request.go: Limits, ParsePage
--   Pagination.Report     runtime/pagination/report.go: ReportLimits, ParseReport, Totals
--   Authz.Names           runtime/authz/permission.go: validName, validDotted
--   Authz.Permission      runtime/authz/permission.go: Set, Role
--   Authz.Catalog         runtime/authz/catalog.go: NewCatalog, Grants
--   Forwarded.Policy      runtime/forwarded/policy.go: NewPolicy, ParseNetworks, Resolve
--   Secure.Source         runtime/secure/csp.go and options.go: sources, hashes, report URIs, permissions' names
--   Secure.Directive      runtime/secure/csp.go and policy.go: render, renderWithNonce, renderPermissions
--   Secure.Builder        runtime/secure/policy.go and deployment.go: the builder and its waivers
--   Secure.Options        runtime/secure/options.go: every option, as a change of the builder
--   Secure.Policy         runtime/secure/policy.go: newPolicy, build
--   Secure.Response       runtime/secure/middleware.go, nonce.go, policy.go: Middleware, the writer, apply
--   Secure.Span           package time for the security headers: whole seconds and the text of a duration
--   Transaction           runtime/transaction/transaction.go: New, Within
--   Password.Params       runtime/password/params.go and benchmark.go: NewParams, Benchmark, Recommend
--   Password.Encoding     runtime/password/policy.go: encode, decode, parseCost
--   Password.Policy       runtime/password/policy.go: NewPolicy, Hash, Verify, VerifyDummy
--   Lifecycle             runtime/lifecycle/mode.go and group.go: ParseMode, NewGroup, Group.Run and Shutdown
--   Lifecycle.Worker      runtime/lifecycle/worker.go: Run and Shutdown as events of goroutines
--   Health                runtime/health/check.go and handler.go: NewProber, Probe and the handlers
--   Generator.Name        internal/generator/name.go: ValidateName, ValidateModulePath
--   Reauth                examples/reference/app/internal/platform/reauth/matrix.go: NewMatrix, Freshness, Actions
--   Totp.Code             modules/totp/totp.go: Step, Code, NormalizeCode, Verify
--   Totp.Recovery         modules/totp/recovery.go: newRecoveryCode, ParseRecoveryCode, Digest
--   Reservation.Window    examples/reference/app/internal/features/reservation/reservation.go: states, validateWindow
--   Reservation.Store     its queries/reservation.sql and examples/reference/app/db/migrations/00014_workbench.sql
--   Reservation.Effects   its effects.go, and toReservation of convert.go
--   Reservation.Commands  its reservation.go: Create, CheckOut, Return, Cancel, SweepNoShows; workers.go
-- The modules below each of these hold its theorems, and Examples its tests. Common has the shared
-- types: strings as lists of bytes (Text), their white space and UTF-8 (Space, Utf8), int64 (Int),
-- package time (Clock), prefixes and decimal numerals (Affix), results with errors (Result, Maybe),
-- maps as lists of keys (Keys). Base64 is encoding/base64, with its round trip.
--
-- State is passed explicitly. The reservation commands take the table and what the collaborators
-- store, and give both back; a transaction that fails gives back what it was given. Runs of the
-- application are sequences of commands (Reservation.Reach), since every command locks its row and
-- each statement is atomic.
--
-- Bounds and fuel: durations are int64 and wrap or saturate as in Go; the bounds of each package are
-- its constants. Loops are structural recursion, but for three on fuel: digits_in counts on the value
-- itself, which is never below its number of digits, and trim_space on the length of the text, since
-- every space that it drops has a byte. decimal counts on the value and one, which is above its number
-- of digits. recommend_loop counts the rounds that are left to the ceiling of iterations, and
-- probe_loop the checks that have not reported.
--
-- Parameters, because their code is not in the repository: SHA-256, HMAC, the random source,
-- encoding/json, net/netip, the text form of UUIDs, the clocks, Argon2id and the time that it takes,
-- the answers of a database driver, the ends of components and of health checks, and the collaborators
-- of the reservations (audit, jobs, notifications). The language's own strings, maps and sorting are
-- defined.
--
-- Of net/http the writer below the security middleware is written out as it is documented: what it
-- commits on the first write, and that it can flush; after a panic a recovery outside answers 500. A
-- handler that unwraps the writer is left out. Of a database driver, a rollback that returns has
-- closed the transaction; a commit that fails may have stored it. A component and its Shutdown heed
-- their contexts.
--
-- Not modelled: the HTTP server of the lifecycle, the list of compromised passwords, the HTTP glue,
-- logging, the command line and the generators beyond the names, which move text and call libraries;
-- the precision to which the database stores an instant; of the reservation commands a commit that
-- fails; that the holder of a reservation is a known user; how time.Unix wraps for seconds near the
-- ends of int64; how an organization's identifier becomes the tenant of a transaction; the listing of
-- reservations.
pub mod Common
pub mod Base64
pub mod Session
pub mod Pagination
pub mod Authz
pub mod Forwarded
pub mod Totp
pub mod Reservation
pub mod Secure
pub mod Transaction
pub mod Password
pub mod Lifecycle
pub mod Health
pub mod Generator
pub mod Reauth
