-- ===== src/Lib.antt =====
-- Porcelain: a web console for a Linux host, written in Go (porcelain/).
--
-- A request passes the mutual-TLS middleware, which stores the identity of the client's
-- certificate, then the authentication middleware, which stores claims derived from the headers
-- of the reverse proxy, and then a handler. A handler that changes the host first asks the
-- policy; it looks a module up in the registry, calls one operation of it and answers with its
-- result or its error. The modules run commands on the host and call its services over D-Bus.
--
--   Config     internal/config/config.go: `LoadFromEnv` over an environment function.
--   Policy     internal/policy/authorizer.go: `Authorize` is `authorize`.
--   Auth       internal/auth/dex.go: `extractClaims` and `Middleware`.
--   Registry   internal/modules/module.go: `Registry`, over any type of modules.
--   Host       the commands that the modules run. `exec.CommandContext` is a function of the
--              commands that were run before, so what a command prints may depend on all of
--              them; a `World` is the list of those commands, the newest first.
--   Zfs        internal/modules/zfs/zfs.go: the task log with its mutex (Zfs), the text of
--              `zpool status` (Zfs/Status), the tracked commands (Zfs/Commands), the lists
--              of tasks and events (Zfs/Recent), the page of pools (Zfs/Listing).
--   Dbus       internal/dbus: the connection (Dbus), and the clients of systemd, NetworkManager,
--              firewalld and UDisks2 with the guard in front of formatting (Dbus/Systemd,
--              Dbus/NetworkManager, Dbus/Firewalld, Dbus/Udisks). `CallWithContext` is a function of
--              the calls that were made before; `Calls` is the list of them, the newest first.
--   Storage    internal/modules/storage: the data sources and the operations on devices (Storage),
--              the sample data (Storage/Fake), the cache over a sequence of reads (Storage/Cache).
--   Diagnostics  internal/modules/diagnostics: the capture of the host, actions on units.
--   Network    internal/modules/network and internal/modules/firewall.
--   Cloudflare internal/modules/cloudflare: tunnels and their containers.
--   Podman     internal/modules/podman/podman.go: the operations that run `podman` (Podman), and
--              the page of containers and images (Podman/Snapshot).
--   Sensors    internal/modules/sensors/sensors.go: thresholds, the history and the state file
--              (Sensors), readings and the snapshot (Sensors/Readings).
--   Secrets    internal/secrets/memory.go: the store with its watchers, and what may happen to it
--              in any order (`Event`). internal/secrets/systemd_creds.go: the store of encrypted
--              files (Secrets/SystemdCreds).
--   Certificates  pkg/secrets/interfaces.go, internal/secrets/selfsigned.go, filesystem.go and
--              backend.go, and internal/certmanager/lifecycle.go: the interfaces (Certificates), the
--              stores (Certificates/SelfSigned, Certificates/Filesystem), the TLS manager
--              (Certificates/Manager), and the memory store in the place of the secret store
--              (Certificates/Memory).
--   Templates  internal/templates: the functions of the templates and the engine.
--   Server     internal/server/router.go and internal/server/middleware/mtls.go: requests,
--              the gate `authorizeWrite` (Server), the middleware chain of `NewRouter`
--              (Server/Middleware), the handlers (Server/PodmanRoutes, Server/ZfsRoutes,
--              Server/SensorsRoutes, Server/HistoryRoutes, Server/BusRoutes,
--              Server/CloudflareRoutes, Server/Bundle for support bundles, Server/Static for
--              static files), the pages (Server/Pages, Server/Dashboard, Server/DiagnosticsPage),
--              what holds behind the gate (Server/Gate), the badges of the sidebar and the
--              monogram (Server/Badges), the user menu (Server/UserMenu), the list of tasks and
--              the events of the stream (Server/Stream). internal/server/socket_activation.go (Server/Listen).
--   Text       what the program uses of Go's `strings`, `strconv`, `path` and `html` packages.
--   Prelude    lists, options, results and Boolean tests over the native numbers.
--
-- The functions have the source's names in the spelling of this library. A method of a pointer
-- takes the state and returns the state after it. `none` as the result of an operation of the
-- ZFS module means that the goroutine waits for ever on the mutex that it holds itself.
--
-- Parameters stand for code that is not part of the program: the web framework (`Fiber`), the
-- host (`Host`), D-Bus (`Bus`, `Platform`), cryptography (`Crypto`), files (`Files`, `Disk`,
-- `StaticFs`, `StateFile`), the parser of templates (`Parser`), archives (`Packer`), sockets
-- (`Sockets`), the tool `systemd-creds` (`CredsHost`), floating-point numbers (`Floats`, `Sizes`,
-- `Plot`), and JSON (the formatter of inspections, the decoders of readings and of tunnels, and the
-- encoders of history points, of bundles and of the sensors' state). What a slice of an empty name
-- gives is one too, since Go leaves it to the implementation (Server/Badges).
-- Timeouts of commands are not modelled: a command that is cut off is one that fails. Loops run
-- over lists or texts. Two functions have fuel: the decimal print of a number (Text/Decimal), with one
-- more than the number, which is enough because each round divides by ten; and the loop of
-- `humanizeBytes` (Templates), with six rounds, which is enough for every `int64`.
--
-- Not modelled: signals and the server loop, TLS handshakes, the text of the templates, the secret
-- stores on age, Vault and cert-manager, whose operations all return one error, the loop of the
-- event stream, and the stubs of the D-Bus clients for other systems than Linux.
pub mod Prelude
pub mod Text
pub mod Policy
pub mod Host
pub mod Zfs
pub mod Registry
pub mod Auth
pub mod Podman
pub mod Server
pub mod Secrets
pub mod Sensors
pub mod Config
pub mod Dbus
pub mod Storage
pub mod Diagnostics
pub mod Network
pub mod Cloudflare
pub mod Certificates
pub mod Templates
