-- ===== src/Server/Tests/Lifetimes.antt =====
-- The theorems about the shutdown and about containers at concrete inputs.
use nnel.Base.{
  ◌≡◌, refl, Bool, true, false, not, ◌&&◌, ◌||◌, none, some, [], ◌∷◌, pos, Text, text, text_eqb,
  text_eqb_iff, text_eq, lookup, insert, delete, ok, err, All, In, arith,
}
use nnel.Server.Registry.{session, new_registry}
use nnel.Server.State.{Server, DeployedApp}
use nnel.Server.Deploy.{
  BuildRun, run_failed, new_app, save_state, load_apps, promote_end, deploy, evict_tunnel,
}
use nnel.Server.Deploy.Persistence.{restarted}
use nnel.Server.Steps.{started, builds, Reach, here, next}
use nnel.Server.Lifetime.{
  DockerCall, stop, rm, rm_force, rmi, run, promote_calls, close_all, docker_calls, done_at_exit,
}
use nnel.Server.Lifetime.Docker.{Docker, exec_all, app_runs, starts, concerns}
use nnel.Server.Lifetime.Containers.{load_apps-done_at_exit, promote_calls-promote_end}
use nnel.Server.Lifetime.Closing.{ClosedIn, close_all-IsLive}
use nnel.Server.Lifetime.Recording.{file_of, load_apps-file_of}
use nnel.Server.Tests.{
  parse_nothing, listen_at, all_run, sample_cfg, server, with_web, laptop_web, with_web-IsLive,
}

-- A machine by which of its containers run; `docker rm` takes no container that runs.
abbrev exec_on : DockerCall → (Text → Bool) → Text → Bool
exec_on (stop c) w d = not (text_eqb c d) && w d
exec_on (rm c) w d = w d
exec_on (rm_force c) w d = not (text_eqb c d) && w d
exec_on (run env_file c image) w d = text_eqb c d || w d
exec_on (rmi image) w d = w d

exec_on_stops : (c : Text) (w : Text → Bool) → exec_on (stop c) w c ≡ false
exec_on_stops c w = ground (arith, text_eqb_iff c c)

exec_on_rests :
    (call : DockerCall) (c : Text) (w : Text → Bool)
    → starts call ≡ false
    → w c ≡ false
    → exec_on call w c ≡ false
exec_on_rests call c w idle down = ground arith

exec_on_others :
    (call : DockerCall) (c : Text) (w : Text → Bool)
    → concerns call c ≡ false
    → exec_on call w c ≡ w c
exec_on_others call c w off = ground arith

abbrev machine : Docker (Text → Bool)
machine = record {
  exec = exec_on;
  is_running = λ c w. w c;
  stops = exec_on_stops;
  rests = exec_on_rests;
  others = exec_on_others;
}

abbrev web_app : DeployedApp
web_app = new_app (text "web") (text "/tmp/a") (text "f00") (text "127.0.0.1:3000", pos 3000) 10

abbrev serving : Server
serving = record (server with_web) { deployed_apps = (text "web", web_app) ∷ [] }

abbrev nothing_runs : Text → Bool
nothing_runs name = false

-- Shut down, the server forgets its app; killed, it has it again.
load_apps-done_at_exit_example :
    load_apps
      (app_runs machine (exec_all machine (docker_calls (done_at_exit serving 1)) all_run))
      (save_state serving.deployed_apps)
      []
    ≡ []
load_apps-done_at_exit_example = load_apps-done_at_exit machine serving 1 all_run

still_runs : app_runs machine all_run (text "web") ≡ true
still_runs = refl

abbrev run_failing : BuildRun
run_failing = record {
  output = [];
  build_error = none;
  run = err (text "exit status 125");
  detected = err [];
  finished_at = 10;
}

run_is_refused :
    (promote_end (server with_web) (text "web") (text "/tmp/a") run_failing).1 ≡ some run_failed
unfolding promote_end
run_is_refused = refl

promote_calls-promote_end_example :
    (app_runs machine
        (exec_all machine (promote_calls (text "web") none run_failing) nothing_runs)
        (text "web")
      ≡ false)
    × (exec_all machine (promote_calls (text "web") none run_failing) nothing_runs (text "db")
        ≡ false)
promote_calls-promote_end_example =
    promote_calls-promote_end machine (server with_web) (text "web") (text "/tmp/a") none
      run_failing run_failed nothing_runs (text "db") refl run_is_refused (λ e. ground (arith, e))

close_all-IsLive_example :
    In (session 3) (close_all with_web) × All (ClosedIn (close_all with_web)) laptop_web.tunnels
close_all-IsLive_example = close_all-IsLive with_web 0 laptop_web with_web-IsLive

abbrev succeeding : BuildRun
succeeding = record run_failing {
  run = ok (text "f00");
  detected = ok (text "127.0.0.1:3000", pos 3000);
}

abbrev promoted : Server
promoted = record (server new_registry) { deployed_apps = (text "web", web_app) ∷ [] }

web_is_promoted : Reach parse_nothing listen_at (started all_run sample_cfg []) promoted
unfolding started new_registry load_apps promote_end deploy insert lookup delete evict_tunnel
web_is_promoted = next here (builds (text "web") (text "/tmp/a") succeeding)

load_apps-file_of_example :
    lookup
      (text "web")
      (started all_run sample_cfg
        (file_of parse_nothing listen_at web_is_promoted [])).deployed_apps
    ≡ some (restarted web_app)
unfolding lookup
load_apps-file_of_example =
    load_apps-file_of parse_nothing listen_at all_run all_run sample_cfg [] promoted web_is_promoted
      (text "web") web_app refl refl
