-- ===== src/Server/Lifetime/Recording/Restarts.antt =====
-- What a state file gives back after a restart (loadApps, saveState in deploy.go), and the handlers that
-- leave the apps as they are.
use nnel.Base.{
  ◌≡◌, ◌⊎◌, refl, sym, subst, ap, ◌∙◌, inl, inr, Bool, true, false, not, ◌+◌, Bool-cases,
  Option-cases, some, List, [], ◌∷◌, Text, text_eqb, text_eqb_iff, text_eq, lookup, insert,
  lookup-insert, if◌then◌else◌, arith,
}
use nnel.Server.Http.{handle_http, serve_deployed_app, extract_subdomain}
use nnel.Server.Registry.{is_some}
use nnel.Server.State.{Server, DeployedApp}
use nnel.Server.Deploy.{
  PersistedApp, Upload, BuildRun, restored, save_state, load_apps, promote_begin, promote_end,
  stop_app,
}
use nnel.Server.Deploy.Persistence.{IsKeyed, restarted, survives, load_apps-save_state}

-- A later server, whose docker says `up`, has each of the apps again whose container runs.
abbrev pub Recorded : List PersistedApp → List (Text × DeployedApp) → Type 0
Recorded file apps =
    (name : Text) (app : DeployedApp) (up : Text → Bool)
    → lookup name apps ≡ some app
    → up name ≡ true
    → lookup name (load_apps up file []) ≡ some (restarted app)

-- Each app of the new table was in the old one, and differs from it at most by its counters.
abbrev pub Carried : List (Text × DeployedApp) → List (Text × DeployedApp) → Type 0
Carried apps apps' =
    (name : Text) (app' : DeployedApp)
    → lookup name apps' ≡ some app'
    → (app : DeployedApp) × (lookup name apps ≡ some app) × (restarted app ≡ restarted app')

pub Carried-same : (apps apps' : List (Text × DeployedApp)) → apps' ≡ apps → Carried apps apps'
Carried-same apps apps' same name app' h = (app', rw (← same) h, refl)

pub Recorded-Carried :
    (file : List PersistedApp) (apps apps' : List (Text × DeployedApp))
    → Recorded file apps
    → Carried apps apps'
    → Recorded file apps'
Recorded-Carried file apps apps' held carried name app' up h runs =
    let (app, before, same) = carried name app' h in held name app up before runs ∙ ap some same

abbrev served_by : DeployedApp → DeployedApp
served_by app = record app { requests = app.requests + 1 }

Carried-serve_deployed_app :
    (k : Text) (app : DeployedApp) (s : Server)
    → lookup k s.deployed_apps ≡ some app
    → Carried s.deployed_apps (serve_deployed_app k app s).0.deployed_apps
unfolding serve_deployed_app
Carried-serve_deployed_app k app s known = elim (Bool-cases (text_eqb app.listen_addr [])) [
  | inl empty ↦ rw (empty, serve_deployed_app) (Carried-same _ _ refl)
  | inr set ↦ rw (set, serve_deployed_app) counted
]
  where
    counted : Carried s.deployed_apps (insert k (served_by app) s.deployed_apps)
    counted name app' h = elim (Bool-cases (text_eqb k name)) [
      | inl hit ↦
          let new : served_by app ≡ app' =
            ground (arith, lookup-insert k name (served_by app) s.deployed_apps) in
          (app, ground (arith, text_eqb_iff k name), ap restarted new)
      | inr miss ↦
          (app', ground (arith, lookup-insert k name (served_by app) s.deployed_apps), refl)
    ]

-- A request changes the apps only where one serves it.
serves_or_not :
    (s : Server) (host upgrade : Text) (app : DeployedApp)
    → lookup (extract_subdomain host s.cfg.domain) s.deployed_apps ≡ some app
    → ((handle_http s host upgrade).0.deployed_apps ≡ s.deployed_apps)
      ⊎ ((handle_http s host upgrade).0.deployed_apps
          ≡ (serve_deployed_app (extract_subdomain host s.cfg.domain) app s).0.deployed_apps)
unfolding handle_http
serves_or_not s host upgrade app known = ground arith

pub Carried-handle_http :
    (s : Server) (host upgrade : Text)
    → Carried s.deployed_apps (handle_http s host upgrade).0.deployed_apps
unfolding handle_http
Carried-handle_http s host upgrade =
    let sub = extract_subdomain host s.cfg.domain in
    elim (Option-cases (lookup sub s.deployed_apps)) [
      | inl unknown ↦ Carried-same _ _ (ground arith)
      | inr (app, known) ↦ elim (serves_or_not s host upgrade app known) [
        | inl same ↦ Carried-same _ _ same
        | inr counted ↦ rw counted (Carried-serve_deployed_app sub app s known)
      ]
    ]

-- The list that saveState writes gives back the table.
pub Recorded-save :
    (t : Server) → IsKeyed t.deployed_apps → Recorded (save_state t.deployed_apps) t.deployed_apps
Recorded-save t keyed name app up h runs =
    load_apps-save_state up t.deployed_apps name keyed ∙ rw (h, survives) (rw (runs, survives) refl)

pub begun_apps : (s : Server) (u : Upload) → (promote_begin s u).0.deployed_apps ≡ s.deployed_apps
unfolding promote_begin
begun_apps s u = ground arith

pub failed_apps :
    (s : Server) (name dir : Text) (r : BuildRun)
    → not (is_some (promote_end s name dir r).1) ≡ false
    → (promote_end s name dir r).0.deployed_apps ≡ s.deployed_apps
unfolding promote_end
failed_apps s name dir r failed = ground arith

pub unstopped_apps :
    (s : Server) (name : Text)
    → (stop_app name s).1 ≡ false
    → (stop_app name s).0.deployed_apps ≡ s.deployed_apps
unfolding stop_app
unstopped_apps s name h = ground arith

-- Of an app whose container ran at one start and runs at the next, both read the same from the file.
load_apps_again :
    (was_up up : Text → Bool) (saved : List PersistedApp) (held held' : List (Text × DeployedApp))
    (name : Text)
    → was_up name ≡ true
    → up name ≡ true
    → lookup name held ≡ lookup name held'
    → lookup name (load_apps was_up saved held) ≡ lookup name (load_apps up saved held')
unfolding load_apps
load_apps_again was_up up [] held held' name ran runs same = same
load_apps_again was_up up (pa ∷ saved) held held' name ran runs same =
    load_apps_again was_up up saved _ _ name ran runs (
      ground (
        arith,
        lookup-insert pa.name name (restored pa) held,
        lookup-insert pa.name name (restored pa) held',
        text_eqb_iff pa.name name,
        λ (e : pa.name ≡ name). ap was_up e,
        λ (e : pa.name ≡ name). ap up e,
      ))

load_apps-round :
    (up : Text → Bool) (pa : PersistedApp) (held : List (Text × DeployedApp)) (name : Text)
    (app : DeployedApp)
    → lookup name (if up pa.name then insert pa.name (restored pa) held else held) ≡ some app
    → (lookup name held ≡ some app) ⊎ ((up name ≡ true) × (restored pa ≡ app))
load_apps-round up pa held name app h = ground (
  arith,
  lookup-insert pa.name name (restored pa) held,
  text_eqb_iff pa.name name,
  λ (e : pa.name ≡ name). ap up e,
)

-- What is loaded under a name is from the file, and its container runs.
load_apps-restored :
    (up : Text → Bool) (saved : List PersistedApp) (held : List (Text × DeployedApp)) (name : Text)
    (app : DeployedApp)
    → lookup name (load_apps up saved held) ≡ some app
    → (lookup name held ≡ some app) ⊎ ((up name ≡ true) × (restarted app ≡ app))
unfolding load_apps
load_apps-restored up [] held name app h = inl h
load_apps-restored up (pa ∷ saved) held name app h =
    elim (load_apps-restored up saved _ name app h) [
      | inr new ↦ inr new
      | inl found ↦ elim (load_apps-round up pa held name app found) [
        | inl old ↦ inl old
        | inr (runs, same) ↦ inr (runs, subst (λ a. restarted a ≡ a) same refl)
      ]
    ]

-- What a server has at its start is recorded in the file that it was started from.
pub Recorded-load_apps :
    (was_up : Text → Bool) (saved : List PersistedApp) → Recorded saved (load_apps was_up saved [])
Recorded-load_apps was_up saved name app up h runs =
    elim (load_apps-restored was_up saved [] name app h) [
      | inl held ↦ absurd (unfold lookup in ground (arith, held))
      | inr (ran, same) ↦
          load_apps_again up was_up saved [] [] name runs ran refl ∙ (h ∙ ap some (sym same))
    ]
