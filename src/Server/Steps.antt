-- ===== src/Server/Steps.antt =====
-- The relay server as a whole: a step is one handler, with what its environment gives it. Handlers
-- of different connections run one after another.
pub mod Handlers
pub mod Reachable
use nnel.Base.{ℕ, ◌≡◌, Bool, Option, none, some, List, [], Text, ℤ, Result, lookup, text_eq}
use nnel.Config.{ServerConfig}
use nnel.Proto.{Envelope}
use nnel.Server.Registry.{Registry, ClientEntry, new_registry, add_client, remove_client}
use nnel.Server.Registry.Consistent.{IsLive}
use nnel.Server.State.{Server, DeployedApp}
use nnel.Server.Url.{Url}
use nnel.Server.Control.{Reply, handle_message}
use nnel.Server.Http.{handle_http}
use nnel.Server.Deploy.{
  Upload, BuildRun, PersistedApp, promote_begin, promote_end, stop_app, load_apps,
}
use nnel.Server.Admin.{handle_remove_tunnel, handle_set_tunnel_dir, dismiss_build}

-- The server when it starts to serve: an empty registry, and the apps of the state file whose
-- containers run.
unfoldable pub started : (Text → Bool) → ServerConfig → List PersistedApp → Server
started is_running cfg saved = record {
  cfg = cfg;
  registry = new_registry;
  deployed_apps = load_apps is_running saved [];
  pending_builds = [];
}

abbrev with_registry : Registry → Server → Server
with_registry reg s = record s { registry = reg }

module _ (parse_url : Text → Option Url) (listen : ℤ → Result Text ℕ) where
  pub data Step (s : Server) : Server → Type 0 where
    -- a client is let in; its id is not in use
    connects :
        (entry : ClientEntry)
        → lookup entry.id s.registry.by_id ≡ none
        → entry.tunnels ≡ []
        → Step s (with_registry (add_client entry s.registry) s)
    -- a connected client's message is handled
    receives :
        (p : ℕ) (e : ClientEntry) (env : Envelope) (s' : Server) (replies : List Reply)
        → IsLive s.registry p e
        → handle_message parse_url listen s e.id env ≡ some (s', replies)
        → Step s s'
    -- a control loop ends
    disconnects : (id : Text) → Step s (with_registry (remove_client id s.registry).0 s)
    -- the dashboard
    removes :
        (id name : Text) (can_send : Bool) → Step s (handle_remove_tunnel id name can_send s).0
    sets_dir :
        (id name dir : Text) (can_send : Bool)
        → Step s (handle_set_tunnel_dir id name dir can_send s).0
    dismisses : (name : Text) → Step s (dismiss_build name s)
    -- promotion
    uploads : (u : Upload) → Step s (promote_begin s u).0
    builds : (name dir : Text) (r : BuildRun) → Step s (promote_end s name dir r).0
    stops : (name : Text) → Step s (stop_app name s).0
    -- public traffic
    serves : (host upgrade : Text) → Step s (handle_http s host upgrade).0

  pub data Reach (s : Server) : Server → Type 0 where
    here : Reach s s
    next : {t u : Server} → Reach s t → Step t u → Reach s u
