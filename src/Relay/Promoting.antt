-- ===== src/Relay/Promoting.antt =====
-- internal/client/promote.go and internal/server/control.go: what the server learns of a promotion that
-- fails on the client.
use nnel.Base.{
  ℕ, nat_eqb, ◌≡◌, refl, ap, ◌∙◌, ◌⊎◌, inl, inr, Bool-cases, Option, some, List, [], ◌∷◌, ◌++◌, ℤ,
  Text, text, text_eq, text_eqb, lookup, insert, Result, ok, err, arith,
}
use nnel.Config.{ClientConfig}
use nnel.Proto.{
  Envelope, Promote, PromoteError, recv, send, type_promote_error, marshal_promote_error,
}
use nnel.Proto.RoundTrip
use nnel.Proto.RoundTrip.{message-Arrives}
use nnel.Server.State.{Server, PendingBuild}
use nnel.Server.Build.{finish}
use nnel.Server.Url.{Url}
use nnel.Server.Control.{handle_message, handle_promote_error}
use nnel.Client.Promoting.{
  UrlPackage, Answer, not_built, failed, answered, UploadRequest, dir_of, after_post, upload,
  handle_promote, report,
}

module _ (parse_url : Text → Option Url) (listen : ℤ → Result Text ℕ) (s : Server)
    (client_id : Text) where
  -- The server reads the error and ends the pending build of the tunnel with it.
  abbrev pub Reported : PromoteError → PendingBuild → Type 0
  Reported pe b =
      (env : Envelope) × (recv (send type_promote_error (marshal_promote_error pe)) ≡ some env)
      × (handle_message parse_url listen s client_id env
          ≡ some (
            record s {
              pending_builds =
                  insert pe.tunnel_name (finish (text "client error: " ++ pe.error) b)
                    s.pending_builds;
            },
            [],
          ))

  ends_build :
      (pe : PromoteError) (b : PendingBuild)
      → lookup pe.tunnel_name s.pending_builds ≡ some b
      → handle_promote_error s pe ≡ record s {
        pending_builds =
            insert pe.tunnel_name (finish (text "client error: " ++ pe.error) b) s.pending_builds;
      }
  unfolding handle_promote_error
  ends_build pe b h = rw (h, handle_promote_error) refl

  reported :
      (pe : PromoteError) (b : PendingBuild)
      → lookup pe.tunnel_name s.pending_builds ≡ some b
      → Reported pe b
  unfolding handle_message
  reported pe b h =
      let (env, got, typed, read) = message-Arrives (RoundTrip.promote_error pe) tt in
      (env, got, rw (typed, read, ends_build pe b h) refl)

  module _ (home_dir : Option Text) (join_path : Text → Text → Text) (trim_space : Text → Text)
      (urls : UrlPackage) (tarball_of : Text → Result Text Text) (post : UploadRequest → Answer)
      (cfg : ClientConfig) (p : Promote) (b : PendingBuild) where
    -- What the client tells the server: nothing, where the request is answered by 200 or could not be
    -- built, and else one error, by which the server ends the build.
    abbrev pub Told : List PromoteError → Type 0
    Told [] =
        (r : UploadRequest) × (r.name ≡ p.tunnel_name)
        × ((post r ≡ not_built) ⊎ ((body : Text) × (post r ≡ answered 200 body)))
    Told (pe ∷ []) = (pe.tunnel_name ≡ p.tunnel_name) × Reported pe b
    Told (pe ∷ more ∷ rest) = ⊥

    told :
        (problem : Text) → lookup p.tunnel_name s.pending_builds ≡ some b → Told (report p problem)
    told problem h = (refl, reported (record { tunnel_name = p.tunnel_name; error = problem }) b h)

    Told-after_post :
        (r : UploadRequest) (a : Answer)
        → r.name ≡ p.tunnel_name
        → post r ≡ a
        → lookup p.tunnel_name s.pending_builds ≡ some b
        → Told (after_post home_dir join_path trim_space urls tarball_of post p a)
    Told-after_post r not_built name e h = (r, name, inl e)
    Told-after_post r (failed problem) name e h = told (text "upload failed: " ++ problem) h
    Told-after_post r (answered status body) name e h = elim (Bool-cases (nat_eqb status 200)) [
      | inl fine ↦
          let same : status ≡ 200 = ground arith in
          rw fine (r, name, inr (body, e ∙ ap (λ n. answered n body) same))
      | inr other ↦ rw other (told _ h)
    ]

    Told-upload :
        (t : Result Text Text)
        → lookup p.tunnel_name s.pending_builds ≡ some b
        → Told (upload home_dir join_path trim_space urls tarball_of post cfg p t)
    Told-upload (err problem) h = told (text "tarball failed: " ++ problem) h
    Told-upload (ok tarball) h = Told-after_post _ _ refl refl h

    -- A promotion that was asked of a client ends, on the client, with an upload that the server
    -- answered by 200, with a request that could not be built, or with one error that names the
    -- tunnel. If the server has a pending build of this name, it reads the error and marks the build
    -- as finished with it.
    pub Told-handle_promote :
        lookup p.tunnel_name s.pending_builds ≡ some b
        → Told (handle_promote home_dir join_path trim_space urls tarball_of post cfg p)
    unfolding handle_promote
    Told-handle_promote h = elim (Bool-cases (text_eqb (dir_of p.tunnel_name cfg.tunnels) [])) [
      | inl unset ↦ rw unset (told _ h)
      | inr set ↦ rw set (Told-upload _ h)
    ]
