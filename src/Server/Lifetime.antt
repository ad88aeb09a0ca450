-- ===== src/Server/Lifetime.antt =====
-- internal/server/server.go, Run and closeAll, with the calls of docker in internal/server/deploy.go:
-- the start of the server, and its shutdown on a signal.
pub mod Docker
pub mod Containers
pub mod Closing
pub mod Recording
use nnel.Base.{
  ℕ, Bool, true, false, Option, none, some, List, [], ◌∷◌, ◌++◌, map, take, Text, text, text_eq,
  ◌==◌, if◌then◌else◌, get_elem?, join_path, print_int, Result, ok, err,
}
use nnel.Config.{ServerConfig}
use nnel.Server.Registry.{Registry, ClientEntry, TunnelEntry, Closed, session, listener}
use nnel.Server.State.{Server, DeployedApp}
use nnel.Server.Tls.{TlsError, TlsResult, build_tls_config}
use nnel.Server.Deploy.{PersistedApp, BuildRun}

-- A call of docker; the container is named, an image by itself.
pub data DockerCall : Type 0 where
  stop rm rm_force : (container : Text) → DockerCall
  rmi : (image : Text) → DockerCall
  -- detached, with the file of the environment, if the project has one
  run : (env_file : Option Text) (container image : Text) → DockerCall

abbrev pub container_name : Text → Text
container_name name = text "2nnel-" ++ name

abbrev pub cleanup_container : Text → List DockerCall
cleanup_container name = stop (container_name name) ∷ rm (container_name name) ∷ []

-- The calls of handlePromoteUpload, from the build on; it fails, or the app is deployed.
unfoldable pub promote_calls : Text → Option Text → BuildRun → List DockerCall
promote_calls name env_file r =
    let begun = rm_force (container_name name) ∷ run env_file (container_name name) name ∷ [] in
    elim r.build_error [
      | some e ↦ []
      | none ↦ elim r.run [
        | err e ↦ begun ++ cleanup_container name
        | ok id ↦ elim r.detected [ err e ↦ begun ++ cleanup_container name | ok found ↦ begun ]
      ]
    ]

-- The calls of stopApp for an app that is deployed.
abbrev pub stop_calls : DeployedApp → List DockerCall
stop_calls app = stop (container_name app.name) ∷ rm (container_name app.name) ∷ rmi app.name ∷ []

abbrev pub stop_call : Text × DeployedApp → DockerCall
stop_call (k, app) = stop (container_name app.name)

unfoldable pub stop_all_deployed_apps : Server → List DockerCall
stop_all_deployed_apps s = map stop_call s.deployed_apps

-- The listeners and the session of one client.
abbrev pub listeners_of : List TunnelEntry → List Closed
listeners_of [] = []
listeners_of (t ∷ ts) =
    let rest = listeners_of ts in elim t.tcp_ln [ none ↦ rest | some ln ↦ listener ln ∷ rest ]

abbrev pub close_entry : Option ClientEntry → List Closed
close_entry none = []
close_entry (some e) = session e.session ∷ listeners_of e.tunnels

abbrev pub close_ids : List ClientEntry → List (Text × ℕ) → List Closed
close_ids entries [] = []
close_ids entries ((id, p) ∷ ids) = close_entry (get_elem? entries p) ++ close_ids entries ids

unfoldable pub close_all : Registry → List Closed
close_all reg = close_ids reg.entries reg.by_id

-- What the goroutine of Run does on a signal. `shut_down` is the call of http.Server.Shutdown.
pub data ShutdownStep : Type 0 where
  docker : DockerCall → ShutdownStep
  shut_down : ShutdownStep
  closes : Closed → ShutdownStep

unfoldable pub shutdown : Server → List ShutdownStep
unfolding stop_all_deployed_apps close_all
shutdown s = map docker (stop_all_deployed_apps s) ++ shut_down ∷ map closes (close_all s.registry)

-- What is done of it when the process ends. By the documentation of net/http Serve returns at once when
-- Shutdown is called, and Run returns with it; the goroutine comes `n` steps further until then.
unfoldable pub done_at_exit : Server → ℕ → List ShutdownStep
unfolding stop_all_deployed_apps close_all
done_at_exit s n =
    map docker (stop_all_deployed_apps s) ++ shut_down ∷ take n (map closes (close_all s.registry))

abbrev pub docker_calls : List ShutdownStep → List DockerCall
docker_calls [] = []
docker_calls (docker c ∷ steps) = c ∷ docker_calls steps
docker_calls (shut_down ∷ steps) = docker_calls steps
docker_calls (closes c ∷ steps) = docker_calls steps

-- The path of the state file; `temp_dir` is what os.TempDir gives.
unfoldable pub state_file : Text → ServerConfig → Text
state_file temp_dir cfg =
    join_path (if cfg.deploy_dir == [] then temp_dir else cfg.deploy_dir) (text "2nnel-state.json")

-- What os.ReadFile and json.Unmarshal give of the state file.
pub data FileRead : Type 0 where
  missing unreadable malformed : FileRead
  parsed : List PersistedApp → FileRead

-- The apps over which loadState goes.
abbrev pub saved_apps : FileRead → List PersistedApp
saved_apps (parsed apps) = apps
saved_apps _ = []

pub data RunError : Type 0 where
  listen_failed : (addr problem : Text) → RunError
  tls_setup : TlsError → RunError
  serve_failed : Text → RunError

-- How Serve ends: by Shutdown, or by an error.
pub data ServeEnd : Type 0 where
  server_closed : ServeEnd
  failed : Text → ServeEnd

abbrev pub addr_of : ServerConfig → Text
addr_of cfg = b':' ∷ print_int cfg.port

abbrev pub served : ServeEnd → Result RunError (Unit {0})
served server_closed = ok tt
served (failed e) = err (serve_failed e)

module _ (loads : Text → Text → Bool) (listen : Text → Option Text) where
  -- net.Listen gives the error, if any.
  abbrev pub listening : Text → ServeEnd → Result RunError (Unit {0})
  listening addr ends = elim (listen addr) [
    | some e ↦ err (listen_failed addr e)
    | none ↦ served ends
  ]

  -- Run: the listener, with TLS unless in dev mode, and the end of Serve.
  unfoldable pub run_server : ServerConfig → ServeEnd → Result RunError (Unit {0})
  run_server cfg ends =
      if cfg.dev then listening (addr_of cfg) ends else elim (build_tls_config loads cfg) [
        | err e ↦ err (tls_setup e)
        | ok tls ↦ listening (addr_of cfg) ends
      ]
