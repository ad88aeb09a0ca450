-- ===== src/Server/Steps/Handlers.antt =====
-- The handlers of promotion, of the dashboard and of public requests keep the server sound.
use nnel.Base.{
  get_elem?, ◌≡◌, refl, inl, inr, Bool, none, Bool-cases, Option-cases, [], ℤ, Text, text, text_eqb,
  text_eq, lookup, Result, ok, err,
}
use nnel.Server.Registry.{lookup_http, find_tunnel}
use nnel.Server.State.{Server, DeployedApp, PendingBuild}
use nnel.Server.Sound.{IsSound}
use nnel.Server.Http.{
  handle_http, serve_deployed_app, extract_subdomain, find_subdomain, tunnels_of, equal_fold,
}
use nnel.Server.Deploy.{promote_end, BuildRun, stop_app, deploy, update_build}
use nnel.Server.Deploy.Keyed.{name_of_lookup, insert-IsKeyed, delete-IsKeyed}
use nnel.Server.Deploy.Evicting.{evict_tunnel-IsConsistent}
use nnel.Server.Admin.{handle_remove_tunnel, handle_set_tunnel_dir}

pub update_build-IsSound :
    (name : Text) (f : PendingBuild → PendingBuild) (s : Server)
    → IsSound s
    → IsSound (update_build name f s)
update_build-IsSound name f s sound = elim (Option-cases (lookup name s.pending_builds)) [
  | inl missing ↦ rw (missing, update_build) sound
  | inr (b, found) ↦
      rw (found, update_build) (record { consistent = sound.consistent; keyed = sound.keyed })
]

pub deploy-IsSound :
    (name : Text) (app : DeployedApp) (s : Server)
    → app.name ≡ name
    → IsSound s
    → IsSound (deploy name app s)
unfolding deploy
deploy-IsSound name app s named sound = record {
  consistent = evict_tunnel-IsConsistent name s.registry sound.consistent;
  keyed = insert-IsKeyed name app s.deployed_apps named sound.keyed;
}

pub promote_end-IsSound :
    (s : Server) (name dir : Text) (r : BuildRun) → IsSound s → IsSound (promote_end s name dir r).0
unfolding promote_end
promote_end-IsSound s name dir r sound = elim (Option-cases r.build_error) [
  | inr (e, failed) ↦ rw (failed, promote_end) (update_build-IsSound name _ s sound)
  | inl built ↦ rw (built, promote_end) (run_cases r.run)
]
  where
    run_cases :
        (run : Result Text Text)
        → IsSound (promote_end s name dir (record r { run = run; build_error = none })).0
    run_cases (err e) = update_build-IsSound name _ s sound
    run_cases (ok container_id) = found_cases r.detected
      where
        found_cases :
            (detected : Result Text (Text × ℤ))
            → IsSound
                (promote_end s name dir
                  (record r { run = ok container_id; build_error = none; detected = detected })).0
        found_cases (err e) = update_build-IsSound name _ s sound
        found_cases (ok (addr, port)) = deploy-IsSound name _ s refl sound

pub serve_app-IsSound :
    (k : Text) (app : DeployedApp) (s : Server)
    → app.name ≡ k
    → IsSound s
    → IsSound (serve_deployed_app k app s).0
unfolding serve_deployed_app
serve_app-IsSound k app s named sound = elim (Bool-cases (text_eqb app.listen_addr [])) [
  | inl empty ↦ rw (empty, serve_deployed_app) sound
  | inr set ↦
      rw (set, serve_deployed_app)
        (record {
          consistent = sound.consistent;
          keyed = insert-IsKeyed k _ s.deployed_apps named sound.keyed;
        })
]

pub stop_app-IsSound : (name : Text) (s : Server) → IsSound s → IsSound (stop_app name s).0
unfolding stop_app
stop_app-IsSound name s sound = elim (Option-cases (lookup name s.deployed_apps)) [
  | inl missing ↦ rw (missing, stop_app) sound
  | inr (app, known) ↦
      rw (known, stop_app)
        (record {
          consistent = sound.consistent;
          keyed = delete-IsKeyed name s.deployed_apps sound.keyed;
        })
]

-- The dashboard leaves the apps as they are.
pub handle_remove_tunnel_apps :
    (id name : Text) (can_send : Bool) (s : Server)
    → (handle_remove_tunnel id name can_send s).0.deployed_apps ≡ s.deployed_apps
unfolding handle_remove_tunnel
handle_remove_tunnel_apps id name can_send s = elim (Option-cases (lookup id s.registry.by_id)) [
  | inl missing ↦ rw (missing, handle_remove_tunnel) refl
  | inr (p, known) ↦ rw (known, handle_remove_tunnel) refl
]

pub handle_set_tunnel_dir_apps :
    (id name dir : Text) (can_send : Bool) (s : Server)
    → (handle_set_tunnel_dir id name dir can_send s).0.deployed_apps ≡ s.deployed_apps
unfolding handle_set_tunnel_dir
handle_set_tunnel_dir_apps id name dir can_send s =
    elim (Option-cases (lookup id s.registry.by_id)) [
      | inl missing ↦ rw (missing, handle_set_tunnel_dir) refl
      | inr (p, known) ↦
          rw (known, handle_set_tunnel_dir)
            (elim (Option-cases (get_elem? s.registry.entries p)) [
              | inl gone ↦ rw (gone, handle_set_tunnel_dir) refl
              | inr (e, at_p) ↦
                  rw (at_p, handle_set_tunnel_dir)
                    (elim (Option-cases (find_tunnel name e.tunnels)) [
                      | inl no_tunnel' ↦ rw (no_tunnel', handle_set_tunnel_dir) refl
                      | inr (t, found) ↦ rw (found, handle_set_tunnel_dir) refl
                    ])
            ])
    ]

pub serve-IsSound :
    (s : Server) (host upgrade : Text) → IsSound s → IsSound (handle_http s host upgrade).0
unfolding handle_http
serve-IsSound s host upgrade sound =
    let sub = extract_subdomain host s.cfg.domain in
    elim (Bool-cases (text_eqb sub [])) [
      | inl empty ↦ rw (empty, handle_http) sound
      | inr named ↦
          rw (named, handle_http)
            (elim (Option-cases (lookup_http sub s.registry)) [
              | inl free ↦
                  rw (free, handle_http)
                    (elim (Option-cases (lookup sub s.deployed_apps)) [
                      | inl unknown ↦ rw (unknown, handle_http) sound
                      | inr (app, known) ↦
                          rw (known, handle_http)
                            (serve_app-IsSound sub app s
                              (name_of_lookup sub s.deployed_apps app sound.keyed known) sound)
                    ])
              | inr (p, routed) ↦
                  rw (routed, handle_http)
                    (elim (Option-cases (find_subdomain sub (tunnels_of s.registry p))) [
                      | inl missing ↦ rw (missing, handle_http) sound
                      | inr (te, found) ↦
                          rw (found, handle_http)
                            (elim (Bool-cases (equal_fold upgrade (text "websocket"))) [
                              | inl ws ↦ rw (ws, handle_http) sound
                              | inr plain ↦ rw (plain, handle_http) sound
                            ])
                    ])
            ])
    ]
