-- ===== src/Server/Lifetime/Containers.antt =====
-- The containers of deployed apps: at the end of a promotion, and over a shutdown and a new start.
use nnel.Base.{
  ◌≡◌, ◌≢◌, ◌⊎◌, refl, ap, ◌∙◌, inl, inr, Bool, false, Option, some, List, [], ◌∷◌, ◌++◌, map, take,
  zero, suc, ℕ, Text, text_eqb, text_eqb-ne, text_eq, All, In, arith, append-nil,
}
use nnel.Server.State.{Server, DeployedApp}
use nnel.Server.Deploy.{BuildRun, UploadError, save_state, load_apps, promote_end}
use nnel.Server.Registry.{Closed}
use nnel.Server.Lifetime.{
  DockerCall, stop, rm_force, run, container_name, cleanup_container, promote_calls, stop_call,
  ShutdownStep, docker, closes, docker_calls, done_at_exit, close_all,
}
use nnel.Server.Lifetime.Docker.{
  Docker, starts, exec_all, exec_all_stops, exec_all_others, app_runs,
}

docker_calls-docker :
    (cs : List DockerCall) (steps : List ShutdownStep)
    → docker_calls (map docker cs ++ steps) ≡ cs ++ docker_calls steps
docker_calls-docker [] steps = refl
docker_calls-docker (c ∷ cs) steps = ap (◌∷◌ c) (docker_calls-docker cs steps)

docker_calls-closes : (n : ℕ) (cs : List Closed) → docker_calls (take n (map closes cs)) ≡ []
docker_calls-closes zero cs = refl
docker_calls-closes (suc n) [] = refl
docker_calls-closes (suc n) (c ∷ cs) = docker_calls-closes n cs

-- Only the containers are stopped.
docker_calls-done_at_exit :
    (s : Server) (n : ℕ) → docker_calls (done_at_exit s n) ≡ map stop_call s.deployed_apps
unfolding done_at_exit
docker_calls-done_at_exit s n =
    docker_calls-docker (map stop_call s.deployed_apps) _
    ∙ (ap (◌++◌ (map stop_call s.deployed_apps)) (docker_calls-closes n (close_all s.registry))
        ∙ append-nil _)

stops_only :
    (apps : List (Text × DeployedApp)) → All (λ call. starts call ≡ false) (map stop_call apps)
stops_only [] = tt
stops_only ((k, app) ∷ apps) = (refl, stops_only apps)

-- Nothing is restored where no container runs.
load_apps-none :
    (up : Text → Bool) (apps : List (Text × DeployedApp))
    → All (λ a. up a.1.name ≡ false) apps
    → load_apps up (save_state apps) [] ≡ []
unfolding load_apps save_state
load_apps-none up [] down = refl
load_apps-none up ((k, app) ∷ apps) (off, down) = rw (off, load_apps) (load_apps-none up apps down)

abbrev failed_run : Text → Option Text → List DockerCall
failed_run name env_file =
    rm_force (container_name name)
    ∷ run env_file (container_name name) name
    ∷ cleanup_container name

failed_calls :
    (s : Server) (name dir : Text) (env_file : Option Text) (r : BuildRun) (e : UploadError)
    → (promote_end s name dir r).1 ≡ some e
    → (promote_calls name env_file r ≡ [])
      ⊎ (promote_calls name env_file r ≡ failed_run name env_file)
unfolding promote_calls promote_end
failed_calls s name dir env_file r e failed = ground arith

module _ {W : Type 0} (d : Docker W) where
  All-stopped :
      (apps : List (Text × DeployedApp)) (calls : List DockerCall) (w : W)
      → All (λ call. starts call ≡ false) calls
      → ((c : Text) → In (stop c) (map stop_call apps) → In (stop c) calls)
      → All (λ a. app_runs d (exec_all d calls w) a.1.name ≡ false) apps
  All-stopped [] calls w idle among = tt
  All-stopped ((k, app) ∷ apps) calls w idle among = (
    exec_all_stops d calls (container_name app.name) w idle
        (among (container_name app.name) (inl refl)),
    All-stopped apps calls w idle (λ c at. among c (inr at)),
  )

  -- A server that is shut down by a signal stops the container of every deployed app, however far its
  -- shutdown comes before the process ends. So a server that starts again, with the state file that
  -- holds these apps, restores none of them.
  pub load_apps-done_at_exit :
      (s : Server) (n : ℕ) (w : W)
      → load_apps
          (app_runs d (exec_all d (docker_calls (done_at_exit s n)) w))
          (save_state s.deployed_apps)
          []
        ≡ []
  load_apps-done_at_exit s n w = rw (docker_calls-done_at_exit s n) (
      load_apps-none _ s.deployed_apps (
        All-stopped s.deployed_apps (map stop_call s.deployed_apps) w (stops_only s.deployed_apps)
          (λ c at. at)))

  -- A promotion that fails leaves no container of its name running, if none ran when its build ended,
  -- and the containers of other names as they were.
  pub promote_calls-promote_end :
      (s : Server) (name dir : Text) (env_file : Option Text) (r : BuildRun) (e : UploadError)
      (w : W) (other : Text)
      → app_runs d w name ≡ false
      → (promote_end s name dir r).1 ≡ some e
      → container_name name ≢ other
      → (app_runs d (exec_all d (promote_calls name env_file r) w) name ≡ false)
        × (d.is_running other (exec_all d (promote_calls name env_file r) w) ≡ d.is_running other w)
  unfolding promote_calls promote_end exec_all
  promote_calls-promote_end s name dir env_file r e w other down failed ne =
      let off : text_eqb (container_name name) other ≡ false =
        text_eqb-ne (container_name name) other ne in
      elim (failed_calls s name dir env_file r e failed) [
        | inl nothing ↦ rw (nothing, promote_calls) (down, refl)
        | inr cleaned ↦
            rw (cleaned, promote_calls)
              (
                d.rests _ _ _ refl (d.stops _ _),
                exec_all_others d (failed_run name env_file) other w (off, (off, (off, (off, tt)))),
              )
      ]
