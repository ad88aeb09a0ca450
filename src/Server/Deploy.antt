-- ===== src/Server/Deploy.antt =====
-- internal/server/deploy.go: promotion of a tunnel to an app that runs on the server. Docker,
-- Nixpacks, the file system and `ss` enter as the results of the calls that use them.
-- handlePromoteUpload is cut where it waits for the build: `promote_begin` is what precedes the
-- build, and `promote_end` what follows it; other requests are served between the two.
pub mod Names
pub mod Logs
pub mod Persistence
pub mod Keyed
pub mod Archive
pub mod Detecting
pub mod Evicting
pub mod Promotion
use nnel.Base.{
  ℕ, ◌≤◌, leb, ltb, Bool, true, false, not, ◌&&◌, ◌||◌, Option, none, some, List, [], ◌∷◌, ◌++◌,
  all, any, map, ℤ, pos, Text, text, ◌==◌, text_eq, if◌then◌else◌, length, get_elem?, lookup,
  insert, delete, Result, ok, err,
}
use nnel.Server.Registry.{Registry, ClientEntry, Closed, is_some, remove_tunnel_by_name}
use nnel.Server.State.{Server, DeployedApp, PendingBuild}
use nnel.Server.Build.{append_line, append_lines, finish}

-- ASCII letters, digits and `-`. The source ranges over runes; a rune of several bytes is refused,
-- as each of its bytes is here.
abbrev pub is_deploy_char : ℕ → Bool
is_deploy_char c =
    leb b'a' c && leb c b'z'
    || leb b'A' c && leb c b'Z'
    || leb b'0' c && leb c b'9'
    || leb b'-' c && leb c b'-'

unfoldable pub is_valid_deploy_name : Text → Bool
is_valid_deploy_name name =
    if not (ltb 0 (length name)) || ltb 40 (length name) then false else all is_deploy_char name

-- The form of an app in the state file.
pub record PersistedApp : Type 0 where
  pub name : Text
  pub container_id : Text
  pub listen_addr : Text
  pub port : ℤ
  pub dir : Text
  pub started_at : ℕ

abbrev pub persisted : DeployedApp → PersistedApp
persisted app = record {
  name = app.name;
  container_id = app.container_id;
  listen_addr = app.listen_addr;
  port = app.port;
  dir = app.dir;
  started_at = app.started_at;
}

-- The list that is written to the state file.
unfoldable pub save_state : List (Text × DeployedApp) → List PersistedApp
save_state [] = []
save_state ((k, app) ∷ apps) = persisted app ∷ save_state apps

abbrev pub restored : PersistedApp → DeployedApp
restored pa = record {
  name = pa.name;
  subdomain = pa.name;
  container_id = pa.container_id;
  listen_addr = pa.listen_addr;
  port = pa.port;
  dir = pa.dir;
  started_at = pa.started_at;
  requests = 0;
  active_conns = 0;
}

-- The loop of loadState; `docker inspect` says whether the container of a name is running.
module _ (is_running : Text → Bool) where
  unfoldable pub load_apps :
      List PersistedApp → List (Text × DeployedApp) → List (Text × DeployedApp)
  load_apps [] apps = apps
  load_apps (pa ∷ pas) apps =
      load_apps pas (if is_running pa.name then insert pa.name (restored pa) apps else apps)

-- The errors of handlePromoteUpload, with their status codes.
pub data UploadError : Type 0 where
  -- 405
  method_not_allowed : UploadError
  -- 400
  bad_form name_required bad_name tarball_required : UploadError
  -- 409
  already_deployed already_building : UploadError
  -- 500
  no_temp_dir bad_tarball no_ports build_failed run_failed never_listened : UploadError

-- A request and the outcomes of the calls before the build: the form, the tarball in it, the
-- temporary directory, the extraction and the ports in use.
pub record Upload : Type 0 where
  pub is_post : Bool
  pub form_ok : Bool
  pub name : Text
  pub has_tarball : Bool
  pub temp_dir : Option Text
  pub extracted : Bool
  pub ports_ok : Bool
  pub now : ℕ

abbrev pub new_build : Text → ℕ → PendingBuild
new_build name now = record {
  name = name;
  started_at = now;
  lines = [];
  err_msg = [];
  done = false;
}

-- The state when the build starts and the project directory, or the error. The build that is
-- stored when the ports cannot be read is deleted again.
unfoldable pub promote_begin : Server → Upload → Server × Result UploadError Text
promote_begin s u =
    if not u.is_post
    then (s, err method_not_allowed)
    else if not u.form_ok
    then (s, err bad_form)
    else if u.name == []
    then (s, err name_required)
    else if not (is_valid_deploy_name u.name)
    then (s, err bad_name)
    else if is_some (lookup u.name s.deployed_apps)
    then (s, err already_deployed)
    else if is_some (lookup u.name s.pending_builds)
    then (s, err already_building)
    else if not u.has_tarball
    then (s, err tarball_required)
    else elim u.temp_dir [
      | none ↦ (s, err no_temp_dir)
      | some dir ↦
          if not u.extracted
          then (s, err bad_tarball)
          else let builds = insert u.name (new_build u.name u.now) s.pending_builds in
            if not u.ports_ok
            then (record s { pending_builds = delete u.name builds }, err no_ports)
            else (record s { pending_builds = builds }, ok dir)
    ]

-- The outcomes of the calls from the build on: its output and its error, the error of `docker run`
-- or the container's id, and the address where the app listens, with its port, or the error.
pub record BuildRun : Type 0 where
  pub output : List Text
  pub build_error : Option Text
  pub run : Result Text Text
  pub detected : Result Text (Text × ℤ)
  pub finished_at : ℕ

-- A write to the pending build, as the map shows it. Once the map has lost the build, its writes are
-- not seen; that a second build of the name is started then is not modelled.
abbrev pub update_build : Text → (PendingBuild → PendingBuild) → Server → Server
update_build name f s = elim (lookup name s.pending_builds) [
  | none ↦ s
  | some b ↦ record s { pending_builds = insert name (f b) s.pending_builds }
]

abbrev pub new_app : Text → Text → Text → Text × ℤ → ℕ → DeployedApp
new_app name dir container_id (addr, port) now = record {
  name = name;
  subdomain = name;
  container_id = container_id;
  listen_addr = addr;
  port = port;
  dir = dir;
  started_at = now;
  requests = 0;
  active_conns = 0;
}

-- The eviction of a client's tunnel: RemoveTunnel is sent to the client that holds the subdomain,
-- and the client's tunnel of that name is removed. The result has that client's pointer, if any.
unfoldable pub evict_tunnel : Text → Registry → Registry × Option ℕ
evict_tunnel name reg = elim (lookup name reg.by_subdomain) [
  | none ↦ (reg, none)
  | some p ↦ elim (get_elem? reg.entries p) [
    | none ↦ (reg, none)
    | some e ↦ ((remove_tunnel_by_name e.id name reg).0, some p)
  ]
]

unfoldable pub deploy : Text → DeployedApp → Server → Server
unfolding evict_tunnel
deploy name app s = record s {
  deployed_apps = insert name app s.deployed_apps;
  pending_builds = delete name s.pending_builds;
  registry = (evict_tunnel name s.registry).0;
}

abbrev build_complete : Text
build_complete = text "✓ Build complete — starting container…"

-- The name, the project directory, and the state when the build ends.
unfoldable pub promote_end : Server → Text → Text → BuildRun → Server × Option UploadError
unfolding deploy
promote_end s name dir r = elim r.build_error [
  | some e ↦ (
    update_build name (λ b. finish (text "nixpacks build failed: " ++ e) (append_lines r.output b))
        s,
    some build_failed,
  )
  | none ↦ elim r.run [
    | err e ↦ (
      update_build name
          (λ b. finish (text "docker run failed: " ++ e) (
            append_lines (build_complete ∷ text "Starting container…" ∷ [])
              (append_lines r.output b)))
          s,
      some run_failed,
    )
    | ok container_id ↦ elim r.detected [
      | err e ↦ (
        update_build name
            (λ b. finish (text "app never started listening: " ++ e) (
              append_lines (build_complete ∷ text "Starting container…" ∷ [])
                (append_lines r.output b)))
            s,
        some never_listened,
      )
      | ok found ↦ (deploy name (new_app name dir container_id found r.finished_at) s, none)
    ]
  ]
]

-- stopApp; its calls of docker stand in Server/Lifetime, and its files are removed outside of the
-- model.
unfoldable pub stop_app : Text → Server → Server × Bool
stop_app name s = elim (lookup name s.deployed_apps) [
  | none ↦ (s, false)
  | some app ↦ (record s { deployed_apps = delete name s.deployed_apps }, true)
]
