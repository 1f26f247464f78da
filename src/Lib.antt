-- ===== src/Lib.antt =====
-- tripflare: trackers that are slugs below a domain; DNS queries and HTTP requests for a slug are
-- recorded as its events, shown to its owner and kept in SQLite.
--
-- The parts, and the modules that model them:
--   internal/registry/registry.go     Registry: Types (Slug, Event, slugEntry, svc), SlugId
--     (generateSlugID), Channels (close, send), Entry (one entry's ring buffer), Methods (New and
--     every method of Service)
--   internal/registry/persistence.go  Registry/Persistence (FlushTo, LoadFrom), Registry/Entry
--     (what a flush writes to an entry)
--   internal/store/store.go           Store: Rows, Monad (calls of the driver, transactions),
--     Sqlite (the statements of each method)
--   internal/ratelimit/ratelimit.go   Ratelimit: Floats, Buckets
--   internal/dns/server.go            Dns: Messages, Answers, Server, Listen (ListenAndServe)
--   internal/acme/challenge.go, internal/acme/provider.go   Acme: Challenge, Provider
--   internal/acme/manager.go, user.go, selfsigned.go   Acme: Files (the disk), Types (svc, acmeUser,
--     and what is asked of cryptography and of lego), Account (user.go), SelfSigned, Manager
--   internal/pixel/pixel.go           Pixel
--   internal/httpserver/server.go, handlers.go, sse.go   Http: Types (requests, responses, svc),
--     Routes (the two ports, authorisation, routing, hits), Handlers, Events (enrichEvent and
--     streamSSE), Listen (ListenAndServe)
--   internal/config/config.go         Config (Load, defaults, overrides, validate)
--   internal/geoip/geoip.go           Geoip (findDB, countryFlag), Geoip/Lookup (New, Lookup);
--     geoip.Info is in Http/Types
--   internal/logging/handler.go       Logging
--   cmd/tripflare/main.go             Daemon: initServices, startServers, the flush loop where nothing
--     else runs during its ticks, and the last flush; Daemon/Process: the flush loop in its steps, and
--     Act, what the goroutines do to the state that they share
-- The other modules of these directories hold the theorems, and each Tests holds runs at concrete
-- inputs. Base has the shared types and lemmas, Json the payloads of events, Net the host of an
-- address. The DNS server reads and writes the registry, and reads the challenges that the ACME
-- provider sets; the registry writes to the store through Store.Rows.Service, and an HTTP handler
-- deletes from it. HTTP hits go through a limiter (Server.allow) to the registry. Daemon puts the
-- registry, SQLite, the limiter and both servers together.
--
-- How the code is read:
--   A method that holds its mutex is one step from a state to a result and a state; the clock and
--   the random bytes that it reads are arguments. FlushTo holds the mutex to collect
--   the snapshots, and again after the store's writes for each of them, so it is a step that
--   collects, calls of the store, and a step for each entry. LoadFrom runs before any other method.
--   Pointers to entries are numbers (addr), channels are numbers into a table. A panic is an
--   outcome, beside the state that was reached before it.
--   Instants are nanoseconds since Go's zero time, durations are natural numbers, and so are the
--   limits: negative ones are not modelled. A difference of instants stops at 0, which shows only
--   within the first second after the zero time and for a limiter's age beyond it.
--   Go's int does not wrap at the sizes that memory allows.
--   A Go string is the list of its bytes. strings.ToLower is that of ASCII; Go also maps two
--   letters outside ASCII to letters in it.
--   A map is an association list with distinct keys, iterated in its order; the order of Go's
--   iteration is open, and so is that of sort.Slice on equal instants.
--   In Daemon/Process a request or a query is one step, and the flush loop takes a step for each
--   locked section of the registry, for each call of the store and for GC, with anything in between;
--   so do a stream's receipt of an event and its unsub. `tick` of Daemon is a tick during which
--   nothing else runs. How methods interleave within a request is modelled by the registry's steps
--   (Registry/Invariant/Steps) alone. Each clock reading is its own argument.
--   An HTTP handler's calls follow one another with no other request between them. A response is
--   a value that says which status and body are written; the status line of an error of the
--   writer is not modelled. bcrypt's comparison and the geoip lookup are parameters (Server).
--   A geoip database is a function of the address, and netip.ParseAddr is a parameter; a flag is its
--   code points.
--   JSON texts are the objects that they encode.
--   The ACME manager works on a disk of paths. What the random source, the files and the authority
--   answer during one attempt is a value (Attempt): a write may be refused or cut short, a read may
--   fail. crypto/x509, encoding/pem and encoding/json are parameters (Crypto), and so is lego. Run
--   takes the ticks of its loop as a list, each with its time and what the outside answers then;
--   time.Until(t) is compared as an integer, without the bounds of time.Duration at 292 years.
--   An attempt is one step: GetCertificate between its calls finds the certificate of before.
--   SQL statements work on lists of rows. LoadSlugs and LoadEvents have no ORDER BY: their rows come
--   in an order that the database chooses (Db.orders). The length of an id is that of its bytes. A call of the driver fails where `faults` says so. A failed statement outside a
--   transaction changes nothing.
--   float64 is a parameter of the limiter (Floats), with two facts about its comparison where a
--   theorem needs them; the bounds on the rate are those of exact arithmetic, an instance of it.
--   The loop of CreateSlug runs over a list of draws, and `exhausted` says that all collided.
--   digits36 has fuel for 8 digits: five bytes are a number below 2 ^ 40, and 36 ^ 8 is above it.
--   ListenAndServe of the servers is a machine: an event is what a goroutine, the server that it
--   runs, the context or ListenAndServe itself does next, in any order, and a send to a full channel
--   waits. The servers of net/http and of miekg/dns may fail at any time, and end once they have been
--   shut down; a Shutdown returns, in net/http after its five seconds at the latest.
--   The log handler appends to what its writer has got; a write may be cut short. The String of
--   slog.Level is a parameter.
--
-- Not modelled: sockets, TLS, html/template, the driver's connection and the schema's creation
-- (New, migrate, Close of the store), YAML, the log handler's mutex, and of cmd/tripflare/main.go the
-- flags, the signals and that a server's failure ends the process.
pub mod Base
pub mod Json
pub mod Logging
pub mod Net
pub mod Store
pub mod Registry
pub mod Pixel
pub mod Ratelimit
pub mod Acme
pub mod Dns
pub mod Http
pub mod Config
pub mod Daemon
pub mod Geoip
