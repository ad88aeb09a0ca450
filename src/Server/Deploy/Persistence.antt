-- ===== src/Server/Deploy/Persistence.antt =====
-- Deployed apps across a restart of the server.
use nnel.Base.{
  ◌≡◌, refl, ap, ◌∙◌, Bool, Option, none, some, List, [], ◌∷◌, Text, text_eqb, text_eqb_iff,
  text_eq, lookup, insert, lookup-insert, if◌then◌else◌, arith,
}
use nnel.Server.State.{DeployedApp}
use nnel.Server.Deploy.{save_state, load_apps}

-- Each app is stored under its name, once.
abbrev pub IsKeyed : List (Text × DeployedApp) → Type 0
IsKeyed [] = Unit
IsKeyed ((k, app) ∷ apps) = (app.name ≡ k) × (lookup k apps ≡ none) × IsKeyed apps

-- An app as it should be after a restart: its counters start again, its subdomain is its name, and all
-- else is as it was.
abbrev pub restarted : DeployedApp → DeployedApp
restarted app = record app { subdomain = app.name; requests = 0; active_conns = 0 }

-- What a lookup gives after the restart.
abbrev pub survives :
    (Text → Bool) → Text → Option DeployedApp → Option DeployedApp → Option DeployedApp
survives is_running name none other = other
survives is_running name (some app) other = if is_running name then some (restarted app) else other

module _ (is_running : Text → Bool) where
  -- One round of the loop.
  survives_step :
      (k : Text) (app : DeployedApp) (apps held : List (Text × DeployedApp)) (name : Text)
      → app.name ≡ k
      → lookup k apps ≡ none
      → survives is_running name
          (lookup name apps)
          (lookup name (if is_running app.name then insert app.name (restarted app) held else held))
        ≡ survives is_running name
            (if text_eqb k name then some app else lookup name apps)
            (lookup name held)
  survives_step k app apps held name named once = ground (
    arith,
    lookup-insert app.name name (restarted app) held,
    text_eqb_iff k name,
    text_eqb_iff app.name name,
    λ (e : app.name ≡ name). ap is_running e,
  )

  load-save :
      (apps held : List (Text × DeployedApp)) (name : Text)
      → IsKeyed apps
      → lookup name (load_apps is_running (save_state apps) held)
        ≡ survives is_running name (lookup name apps) (lookup name held)
  unfolding load_apps save_state
  load-save [] held name keyed = unfold lookup in refl
  load-save ((k, app) ∷ apps) held name (named, once, keyed) =
      load-save apps (if is_running app.name then insert app.name (restarted app) held else held)
        name keyed
      ∙ (survives_step k app apps held name named once
          ∙ ap (λ o. survives is_running name o (lookup name held)) (unfold lookup in refl))

  -- Of a table that has each app once, under its name, after a restart exactly the apps are deployed
  -- whose containers still run, under their names, as they were but for their counters.
  pub load_apps-save_state :
      (apps : List (Text × DeployedApp)) (name : Text)
      → IsKeyed apps
      → lookup name (load_apps is_running (save_state apps) [])
        ≡ survives is_running name (lookup name apps) none
  load_apps-save_state apps name keyed = load-save apps [] name keyed ∙ unfold lookup in refl
