-- ===== src/Lib.antt =====
-- 2nnel, a tunnel: a relay server gives local services of its clients a public subdomain or TCP port,
-- and can take a service over as a container of its own.
--
-- The parts and how they interact:
--   - a client (internal/client) dials the server over a WebSocket, opens a control stream, is
--     authenticated, and registers its tunnels. Its configuration outlives the session: it connects
--     again with growing delays and registers what it then has;
--   - the server (internal/server) runs one control session for each client (control.go). It keeps
--     the registry of clients and their tunnels (server.go), routes public HTTP requests by their
--     subdomain (http_proxy.go), takes uploads for promotion, builds and runs them (deploy.go), and
--     offers a dashboard whose handlers change the registry or relay a message (dashboard.go);
--   - both sides speak the messages of internal/proto over JSON;
--   - cmd/server and cmd/client read flags.
--
-- Which file models what:
--   - Base: shared helpers. Numbers are native; Go strings are lists of bytes (Base/Bytes,
--     Base/Strings); maps are association lists in which an insertion replaces (Base/Assoc); Go ints
--     are integers, and where the source parses one, its range of 64 bits is checked (Base/Int,
--     Base/Decimal); the counters of bytes and requests are natural numbers; the paths of package
--     filepath are taken lexically, as on Unix (Base/Paths, Base/Elements).
--   - Config: internal/config/config.go.
--   - Proto: internal/proto/messages.go, with encoding/json as Proto/Encoding: `marshal_x` and
--     `unmarshal_x` for each struct X, `send`, `recv`, `payload` for ControlConn.Send,
--     ControlConn.Recv and Envelope.Unmarshal. Proto/Stream: WSConn of internal/proto/wsconn.go.
--   - Server/Registry: Registry and its methods, each one critical section. A *clientEntry is a
--     position in the store `entries`, so that the three maps share one entry. Its child modules
--     have the invariant (Consistent), what each operation keeps (Connect, Register, Remove, Evict,
--     over Update), and the abstract view, a table from keys to client ids (Owner).
--   - Server/Ports, Server/Url: pickTCPPort and buildPublicHTTPURL.
--   - Server/Control: authenticate, the dispatch in loop, handleRegister, registerHTTP, registerTCP;
--     their result is the new state and the replies. Sessions: run and loop, over the messages that
--     come until the stream ends, with nothing else handled in between (Server/Steps has the messages
--     of many sessions and all other handlers in any order); Serving has a series of requests for
--     tunnels. Watching: the timer in loop, on the ticks and the messages in their order. Problems:
--     the texts of refusals.
--   - Server/Streams: RoundTrip, handleWSProxy, forwardTCP and pipeCount: the counters of the tunnel,
--     the state of the stream, and the bytes that go to the client. Interleaving: serveTCP, whose
--     connections update the counters in any order.
--   - Server/Http: extractSubdomain, handleHTTP, serveDeployedApp.
--   - Server/Build, Server/Deploy: pendingBuild, handlePromoteUpload (`promote_begin` before the
--     build, `promote_end` after it), stopApp, saveState, loadState, isValidDeployName;
--     extractTarball (Archive), the detection of ports (Detecting), handleDeployLogs (Logs).
--   - Server/Admin: adminAuth, the dispatch of handleAdmin (Paths), the dashboard's handlers, and what
--     the dashboard shows (Payload): Registry.snapshot, buildSSEPayload, fmtBytes, fmtDuration,
--     handleMetrics; handleSSE (Stream).
--   - Server/Serving: the mux of Run, in front of handleControl, handleAdmin and handleHTTP.
--   - Server/Lifetime: Run with its errors, the goroutine that shuts the server down, closeAll, and
--     the calls of docker. Docker is an interface of what docker promises; Containers has what becomes
--     of containers, Closing what is closed, and Recording the state file over a run of the server.
--   - Server/Tls: buildTLSConfig and the host policy.
--   - Server/Sound, Server/Steps: the server as a step relation, a step for each handler.
--   - Relay: clientEntry.sendMsg, from the dashboard to controlLoop of a client; a promotion that
--     fails (Promoting), an upload (Upload), a stream (Streams) and the first messages of a session
--     (Handshake) from one end to the other, in their JSON form (Proto/Wire). Asking says what the
--     dashboard asks for. Texts in JSON are taken to be valid UTF-8.
--   - Cmd: parseTCPPortRange (Range) and parseTunnelSpecs (Specs), and the configurations with which
--     runServer (Serve) and runClient (Connect) start; runShare (Share), runInstall (Install) and
--     runCheck (Check). Install/Service is the reading of the service file, of systemd and the flags.
--   - Client: connect, a message of controlLoop, dynamicAdd, dynamicRemove, setTunnelDir, and the
--     delays of Run (Backoff); Run, saveConfig, the dialling and whole sessions (Running);
--     createTarball (Packing), handlePromote (Promoting) and handleDataStream (Streams).
--
-- Bounds: the only loop by count is that of pickTCPPort, whose rounds are the number of ports of the
-- range; all others go over lists. The loop of Run does not end in the source, and is modelled on
-- the list of what its attempts give.
-- The loop of detectContainerPort goes over the polls that start before its deadline, the loop of a
-- session over the messages that arrive until its stream ends, and its timer over the ticks.
-- The deadline of 90 s and the interval of 30 s are in nanoseconds, as in the source.
--
-- What is a parameter: url.Parse and the URLs it gives, net.Listen, `docker inspect`, strconv.Quote,
-- os.UserHomeDir, the filepath.Join of expandHome, filepath.Match, strings.TrimSpace where the text may
-- be any, and, for a stream, the JSON text of its header, as functions; the outcomes of Docker,
-- Nixpacks, `ss`, the network, the file system, gzip and tar, the multipart form and sends on a
-- connection as arguments of the handlers that use them.
--
-- What is not modelled: the libraries for the reverse proxy, WebSocket, yamux and TLS, logs, the JSON
-- form of what the dashboard shows, the page in HTML, YAML, the calls of systemctl, random ids, and
-- acceptLoop, which starts handleDataStream for each stream. A step of the server is a whole handler,
-- except that other steps come between the start of a build and its end; so two handlers that check and
-- then change the registry are not interleaved; Server/Registry/Race has that case. Of two copies that
-- run at once only what each copies is modelled, and for the client how much when the first one ends. The timer of a session and its messages are modelled
-- apart (Watching and Sessions): to the loop, a session that the timer closes is the end of the messages.
pub mod Base
pub mod Config
pub mod Proto
pub mod Server
pub mod Cmd
pub mod Client
pub mod Relay
