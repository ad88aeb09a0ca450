-- ===== src/Server/Deploy/Logs.antt =====
-- internal/server/deploy.go, handleDeployLogs. The output of `docker logs` is a
-- parameter; an error of the call is ignored.
use nnel.Base.{
  ◌≡◌, refl, Option, none, some, List, Text, text_eq, lookup, split, join, join-split, trim_right,
}
use nnel.Server.State.{Server, DeployedApp}

-- The lines of the answer, or 404.
module _ (logs : Text → Text) where
  unfoldable pub handle_deploy_logs : Server → Text → Option (List Text)
  handle_deploy_logs s name = elim (lookup name s.deployed_apps) [
    | none ↦ none
    | some app ↦ some (split 10 (trim_right 10 (logs app.name)))
  ]

  -- The lines that are answered, put together again, are the output without the line breaks at its end.
  pub join-handle_deploy_logs :
      (s : Server) (name : Text) (app : DeployedApp)
      → lookup name s.deployed_apps ≡ some app
      → (lines : List Text) × (handle_deploy_logs s name ≡ some lines)
        × (join 10 lines ≡ trim_right 10 (logs app.name))
  unfolding handle_deploy_logs
  join-handle_deploy_logs s name app known = (
    split 10 (trim_right 10 (logs app.name)),
    rw (known, handle_deploy_logs) refl,
    join-split 10 _,
  )
