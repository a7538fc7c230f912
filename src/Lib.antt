-- ===== src/Lib.antt =====
-- dns-ingress: a router of encrypted DNS. A client asks over DoT, DoH, DoQ or DoH3 for a name
-- under a configured base domain; the router rewrites the name of its TLS handshake to an
-- upstream name and forwards the query there.
--
-- How the parts stand together. A configuration is loaded and validated (src/config.rs: Config).
-- Its rewriting section makes the rewriter (src/rewriters/base.rs: Rewriter), which every reader
-- asks for the upstream name; its TLS section makes the certificates that a handshake selects
-- from (src/tls_utils.rs: Tls). The DoH handler (src/proxy/http.rs: Doh) checks a request, with
-- the checks on DNS messages that it shares with DoH3 (src/proxy/http.rs: Message) and the host
-- of the request in its canonical form (src/utils.rs: Hostname), and forwards it
-- (src/upstream/http.rs: Forward) with a client of the pool (src/upstream/pool.rs: Pool). A DoH3
-- request is checked like one of DoH and its errors, which are those of src/error.rs (Error), are
-- turned to a status (src/readers/doh3.rs: Doh3); it is forwarded on an HTTP/3 session
-- (src/upstream/quic.rs: Http3). A DoQ transaction opens a stream of an upstream connection and
-- is relayed frame by frame (src/upstream/quic.rs: Doq). Both lease from a pool of connections
-- with a limit (src/upstream/quic_pool.rs: QuicPool). A DoT connection is relayed in both
-- directions (src/readers/dot.rs: Dot), by an accept loop that DoH shares (Listener). All count
-- in one set of counters (src/metrics.rs: Metrics), which the health checks show
-- (src/readers/healthcheck.rs: Health). Every reader runs its connections in a task group
-- (src/tasks.rs: Tasks), the application starts the readers and shuts them down (src/app.rs:
-- App), and the accept loops wait after an error by src/utils/backoff.rs (Backoff).
--
-- How state and operations correspond. A struct is a record and an enum a data type, with the
-- names of the source; a function has the name of the source, and what stands inline there in a
-- closure or a block is a helper named for what it does. A text is the list of its bytes. A map
-- is an association list in its iteration order. A `Result` with `?` is `Result` with `>>=`, and
-- an `anyhow` error is its message. A call that changes shared state yields the new state beside
-- its result: the client pool in Pool, Forward and Doh, the connection pools in QuicPool, Http3
-- and Doq, the flags, handles and tasks of the application in App. Where tasks interleave, their
-- steps are a relation or a list of events: the calls on a connection pool (QuicPool.Traffic), an
-- accept loop with its connections (Listener), a task group and its supervisor (Tasks), the runs
-- of listeners that end (App.Readiness). What a task waits for with a deadline is done, broken or
-- late (Prelude.Timed). Counters are changed by sequences of atomic additions, each modulo 2 ^ 64
-- (Metrics), which a handler yields in their order (Doh); the threads that add are a step
-- relation (Metrics.Inflight). A body is the sequence of what its polls yield.
--
-- What is a parameter. Third-party code: the parsers of socket addresses, authorities, URIs and
-- header values, base64, TOML, the PEM readers and signing keys (Tls.Backend), the HTTP client
-- (Forward.Hyper), the HTTP/3 session, the handshakes of QUIC, and the two halves of a QUIC
-- stream (Doq.RecvStream and Doq.SendStream), whose laws are the documented behaviour of a read
-- of an exact number of bytes and of a write. A piece of an HTTP/3 response is a `Buf`; that the
-- client yields it as one slice is a named hypothesis where it is needed.
--
-- Bounds and fuel. A message has 12 to 65535 bytes, a u16 length before it in a DoQ frame. The
-- relay of a DoQ response runs on fuel; fuel above the number of bytes that the upstream's stream
-- holds is enough. The backoff saturates at 2 ^ 64 - 1 and its counter wraps at 2 ^ 32.
--
-- What is not modelled: log lines, the accept loops of DoQ, DoH3 and the health checks, how a
-- reader comes to its bound socket, a task group whose last handle is dropped before it was
-- closed, and the code that only calls rustls, quinn or tracing. In Pool, what other calls make
-- of the map between the steps of a call is an argument. In App, what a listener reports and how
-- its run ends are arguments, with the runs that end before and after the test of the flag and
-- the tasks that end before the deadline of a shutdown.
pub mod Prelude
pub mod Error
pub mod Backoff
pub mod Config
pub mod Hostname
pub mod Rewriter
pub mod Metrics
pub mod Tls
pub mod Message
pub mod Pool
pub mod Forward
pub mod QuicPool
pub mod Http3
pub mod Doh
pub mod Doh3
pub mod Doq
pub mod Dot
pub mod Listener
pub mod Tasks
pub mod App
pub mod Health
