-- ===== src/Server/Lifetime/Recording.antt =====
-- The state file over a run of the server, as promotions and stops write it, and what a server that is
-- started again reads from it.
mod Restarts
use nnel.Base.{
  ℕ, ◌≡◌, refl, subst, inl, inr, Bool, true, false, not, Bool-cases, Option, some, List, ℤ, Text,
  lookup, text_eq, Result, if◌then◌else◌,
}
use nnel.Config.{ServerConfig}
use nnel.Server.Registry.{is_some}
use nnel.Server.State.{Server, DeployedApp}
use nnel.Server.Url.{Url}
use nnel.Server.Deploy.{PersistedApp, save_state, promote_end, stop_app}
use nnel.Server.Deploy.Persistence.{restarted}
use nnel.Proto.{Envelope}
use nnel.Server.Registry.{ClientEntry}
use nnel.Server.Registry.Consistent.{IsLive}
use nnel.Server.Control.{Reply, handle_message}
use nnel.Server.Control.Sessions.Handling.{Kept, Kept-message}
use nnel.Server.Sound.{IsSound}
use nnel.Server.Steps.{
  started, Step, connects, receives, disconnects, removes, sets_dir, dismisses, uploads, builds,
  stops, serves, Reach, here, next,
}
use nnel.Server.Steps.Handlers.{handle_remove_tunnel_apps, handle_set_tunnel_dir_apps}
use nnel.Server.Admin.{dismiss_build}
use nnel.Server.Steps.Reachable.{Reach-IsSound}
use nnel.Server.Lifetime.Recording.Restarts.{
  Recorded, Carried, Carried-same, Recorded-Carried, Carried-handle_http, Recorded-save, begun_apps,
  failed_apps, unstopped_apps, Recorded-load_apps,
}

module _ (parse_url : Text → Option Url) (listen : ℤ → Result Text ℕ) where
  -- saveState is called after a promotion that deploys and a stop that finds its app.
  abbrev pub saves : {s t : Server} → Step parse_url listen s t → Bool
  saves {s} (builds name dir r) = not (is_some (promote_end s name dir r).1)
  saves {s} (stops name) = (stop_app name s).1
  saves _ = false

  -- The state file, if its writes succeed.
  abbrev pub file_of :
      {s t : Server} → Reach parse_url listen s t → List PersistedApp → List PersistedApp
  file_of here file = file
  file_of {s} {t} (next reach step) file =
      let before = file_of reach file in if saves step then save_state t.deployed_apps else before

  message_apps :
      {s : Server} (p : ℕ) (e : ClientEntry) (env : Envelope) (s' : Server) (replies : List Reply)
      → IsSound s
      → IsLive s.registry p e
      → handle_message parse_url listen s e.id env ≡ some (s', replies)
      → s'.deployed_apps ≡ s.deployed_apps
  message_apps {s} p e env s' replies sound live h =
      let (sound', connected, others, same) =
        subst (Kept e.id s) h (Kept-message parse_url listen s p e env sound live) in
      same

  -- A step that does not write the file leaves the apps, but for their counters.
  Carried-Step :
      {s t : Server} (step : Step parse_url listen s t)
      → IsSound s
      → saves step ≡ false
      → Carried s.deployed_apps t.deployed_apps
  Carried-Step (connects entry fresh no_tunnels) sound quiet = Carried-same _ _ refl
  Carried-Step (receives p e env s' replies live h) sound quiet =
      Carried-same _ _ (message_apps p e env s' replies sound live h)
  Carried-Step (disconnects id) sound quiet = Carried-same _ _ refl
  Carried-Step {s} (removes id name can_send) sound quiet =
      Carried-same _ _ (handle_remove_tunnel_apps id name can_send s)
  Carried-Step {s} (sets_dir id name dir can_send) sound quiet =
      Carried-same _ _ (handle_set_tunnel_dir_apps id name dir can_send s)
  Carried-Step (dismisses name) sound quiet = unfold dismiss_build in Carried-same _ _ refl
  Carried-Step {s} (uploads u) sound quiet = Carried-same _ _ (begun_apps s u)
  Carried-Step {s} (builds name dir r) sound quiet =
      Carried-same _ _ (failed_apps s name dir r quiet)
  Carried-Step {s} (stops name) sound quiet = Carried-same _ _ (unstopped_apps s name quiet)
  Carried-Step {s} (serves host upgrade) sound quiet = Carried-handle_http s host upgrade

  -- The file always gives back what is deployed.
  Recorded-file_of :
      (up : Text → Bool) (cfg : ServerConfig) (saved : List PersistedApp) (t : Server)
      (reach : Reach parse_url listen (started up cfg saved) t)
      → Recorded (file_of reach saved) t.deployed_apps
  Recorded-file_of up cfg saved _ here = unfold started in Recorded-load_apps up saved
  Recorded-file_of up cfg saved t (next {t = s} reach step) = elim (Bool-cases (saves step)) [
    | inl writes ↦
        rw writes
          (Recorded-save t (Reach-IsSound parse_url listen up cfg saved t (next reach step)).keyed)
    | inr quiet ↦ rw quiet (
        Recorded-Carried _ _ _ (Recorded-file_of up cfg saved s reach)
          (Carried-Step step (Reach-IsSound parse_url listen up cfg saved s reach) quiet))
  ]

  -- Whenever the server dies without a shutdown, whatever its clients, its dashboard and the public
  -- did before, a server that is started again from the state file has each app again whose container
  -- still runs, as it was but for its counters, if the writes of the file succeed.
  pub load_apps-file_of :
      (was_up up : Text → Bool) (cfg : ServerConfig) (saved : List PersistedApp) (t : Server)
      (reach : Reach parse_url listen (started was_up cfg saved) t) (name : Text)
      (app : DeployedApp)
      → lookup name t.deployed_apps ≡ some app
      → up name ≡ true
      → lookup name (started up cfg (file_of reach saved)).deployed_apps ≡ some (restarted app)
  load_apps-file_of was_up up cfg saved t reach name app deployed runs =
      unfold started in Recorded-file_of was_up cfg saved t reach name app up deployed runs
