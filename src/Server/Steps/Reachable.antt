-- ===== src/Server/Steps/Reachable.antt =====
-- What holds of the server in every state that it reaches.
use nnel.Base.{
  ℕ, ◌≡◌, refl, Bool, Option, none, some, List, [], ℤ, Text, text_eq, Result, ok, err, arith,
}
use nnel.Config.{ServerConfig}
use nnel.Proto.{Envelope}
use nnel.Server.Registry.{ClientEntry}
use nnel.Server.Registry.Consistent.{IsLive, new_registry-IsConsistent}
use nnel.Server.Registry.Connect.{add_client-IsConsistent}
use nnel.Server.Registry.Remove.{remove_client-IsConsistent}
use nnel.Server.State.{Server}
use nnel.Server.Url.{Url}
use nnel.Server.Control.{Handled, Reply, handle_message}
use nnel.Server.Sound.{IsSound}
use nnel.Server.Control.Sessions.Handling.{Kept, Kept-message}
use nnel.Server.Deploy.{UploadError, PersistedApp, promote_begin, Upload}
use nnel.Server.Deploy.Keyed.{load_apps-IsKeyed}
use nnel.Server.Deploy.Promotion.{Begun, promote_begin-Begun}
use nnel.Server.Admin.{dismiss_build}
use nnel.Server.Admin.Laws.{handle_remove_tunnel-IsConsistent, handle_set_tunnel_dir-IsConsistent}
use nnel.Server.Steps.{
  started, Step, connects, receives, disconnects, removes, sets_dir, dismisses, uploads, builds,
  stops, serves, Reach, here, next,
}
use nnel.Server.Steps.Handlers.{
  promote_end-IsSound, stop_app-IsSound, handle_remove_tunnel_apps, handle_set_tunnel_dir_apps,
  serve-IsSound,
}

started-IsSound :
    (is_running : Text → Bool) (cfg : ServerConfig) (saved : List PersistedApp)
    → IsSound (started is_running cfg saved)
unfolding started
started-IsSound is_running cfg saved = record {
  consistent = new_registry-IsConsistent;
  keyed = load_apps-IsKeyed is_running saved [] tt;
}

Begun-IsSound :
    (s : Server) (u : Upload) (r : Server × Result UploadError Text)
    → IsSound s
    → Begun s u r
    → IsSound r.0
Begun-IsSound s u (s', ok dir) sound (_, _, _, _, same) =
    rw same (record { consistent = sound.consistent; keyed = sound.keyed })
Begun-IsSound s u (s', err e) sound (_, same_reg, same_apps, _) = record {
  consistent = rw same_reg sound.consistent;
  keyed = rw same_apps sound.keyed;
}

-- In a sound state a message of a connected client is handled, whatever it is, without a failure of
-- the server, and the state stays sound.
pub message-IsSound :
    (parse_url : Text → Option Url) (listen : ℤ → Result Text ℕ) (s : Server) (p : ℕ)
    (e : ClientEntry) (env : Envelope)
    → IsSound s
    → IsLive s.registry p e
    → (s' : Server) × (replies : List Reply) × (handle_message parse_url listen s e.id env
        ≡ some (s', replies))
      × IsSound s'
message-IsSound parse_url listen s p e env sound live =
    handled (handle_message parse_url listen s e.id env)
      (Kept-message parse_url listen s p e env sound live)
  where
    handled :
        (r : Handled)
        → Kept e.id s r
        → (s' : Server) × (replies : List Reply) × (r ≡ some (s', replies)) × IsSound s'
    handled none kept = absurd kept
    handled (some (s', replies)) kept = (s', replies, refl, kept.0)

-- One step keeps the server sound.
Step-IsSound :
    (parse_url : Text → Option Url) (listen : ℤ → Result Text ℕ) {s t : Server}
    → Step parse_url listen s t
    → IsSound s
    → IsSound t
Step-IsSound parse_url listen (connects entry fresh no_tunnels) sound = record {
  consistent = add_client-IsConsistent entry _ sound.consistent fresh no_tunnels;
  keyed = sound.keyed;
}
Step-IsSound parse_url listen {s} (receives p e env s' replies live h) sound =
    let (t, rs, h', sound') = message-IsSound parse_url listen s p e env sound live in
    let same : t ≡ s' = ground (arith, h, h') in rw (← same) sound'
Step-IsSound parse_url listen {s} (disconnects id) sound = record {
  consistent = remove_client-IsConsistent id s.registry sound.consistent;
  keyed = sound.keyed;
}
Step-IsSound parse_url listen {s} (removes id name can_send) sound = record {
  consistent = handle_remove_tunnel-IsConsistent id name can_send s sound.consistent;
  keyed = rw (handle_remove_tunnel_apps id name can_send s) sound.keyed;
}
Step-IsSound parse_url listen {s} (sets_dir id name dir can_send) sound = record {
  consistent = handle_set_tunnel_dir-IsConsistent id name dir can_send s sound.consistent;
  keyed = rw (handle_set_tunnel_dir_apps id name dir can_send s) sound.keyed;
}
Step-IsSound parse_url listen {s} (dismisses name) sound =
    unfold dismiss_build in (record { consistent = sound.consistent; keyed = sound.keyed })
Step-IsSound parse_url listen {s} (uploads u) sound =
    Begun-IsSound s u (promote_begin s u) sound (promote_begin-Begun s u)
Step-IsSound parse_url listen {s} (builds name dir r) sound = promote_end-IsSound s name dir r sound
Step-IsSound parse_url listen {s} (stops name) sound = stop_app-IsSound name s sound
Step-IsSound parse_url listen {s} (serves host upgrade) sound = serve-IsSound s host upgrade sound

-- Every state that the server reaches from its start, whatever its clients, its dashboard and the
-- public send, in whatever order, is sound: the maps of the registry agree with the tunnels of the
-- connected clients, and each deployed app is stored once, under its name. Handlers run one after
-- another.
pub Reach-IsSound :
    (parse_url : Text → Option Url) (listen : ℤ → Result Text ℕ) (is_running : Text → Bool)
    (cfg : ServerConfig) (saved : List PersistedApp) (t : Server)
    → Reach parse_url listen (started is_running cfg saved) t
    → IsSound t
Reach-IsSound parse_url listen is_running cfg saved _ here = started-IsSound is_running cfg saved
Reach-IsSound parse_url listen is_running cfg saved t (next reach step) =
    Step-IsSound parse_url listen step (Reach-IsSound parse_url listen is_running cfg saved _ reach)
