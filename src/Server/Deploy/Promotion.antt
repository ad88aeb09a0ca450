-- ===== src/Server/Deploy/Promotion.antt =====
-- Promotion, from the upload to the eviction of the client's tunnel.
use nnel.Base.{
  ℕ, ◌≡◌, ◌≢◌, refl, sym, ◌∙◌, subst, inl, inr, Bool, true, false, not, Option, none, some,
  Bool-cases, List, [], ◌++◌, Text, text, text_eqb, text_eqb_iff, text_eq, lookup, insert, delete,
  lookup-insert, lookup-delete, if◌then◌else◌, Result, ok, err, arith,
}
use nnel.Server.Registry.{ClientEntry, is_some, find_tunnel, lookup_http}
use nnel.Server.Registry.Routes.{key_eq}
use nnel.Server.Registry.Consistent.{IsConsistent, IsLive}
use nnel.Server.Registry.Evict.{remove_tunnel_by_name_missing}
use nnel.Server.State.{Server, DeployedApp, PendingBuild}
use nnel.Server.Build.{finish, append_lines}
use nnel.Server.Deploy.Names.{valid_deploy_name_chars}
use nnel.Server.Http.{deployed, handle_http, extract_subdomain}
use nnel.Server.Http.Routing.{handle_http-Routed, Routed}
use nnel.Server.Deploy.{
  UploadError, no_temp_dir, bad_tarball, no_ports, already_building, build_failed, Upload,
  new_build, promote_begin, BuildRun, update_build, deploy, promote_end, is_valid_deploy_name,
}
use nnel.Server.Deploy.Evicting.{NamedBySubdomain, evict_tunnel_held, evict_tunnel_frees}

-- What the result of an upload means, before the build.
abbrev pub Begun : Server → Upload → Server × Result UploadError Text → Type 0
Begun s u (s', ok dir) =
    (is_valid_deploy_name u.name ≡ true)
    × (lookup u.name s.deployed_apps ≡ none)
    × (lookup u.name s.pending_builds ≡ none)
    × (u.temp_dir ≡ some dir)
    × (s' ≡ record s { pending_builds = insert u.name (new_build u.name u.now) s.pending_builds })
Begun s u (s', err e) =
    ((n : Text) → lookup n s'.pending_builds ≡ lookup n s.pending_builds)
    × (s'.registry ≡ s.registry)
    × (s'.deployed_apps ≡ s.deployed_apps)
    × (s'.cfg ≡ s.cfg)

lookup-delete-insert :
    (k n : Text) (b : PendingBuild) (m : List (Text × PendingBuild))
    → lookup k m ≡ none
    → lookup n (delete k (insert k b m)) ≡ lookup n m
lookup-delete-insert k n b m free =
    ground (arith, lookup-delete k n (insert k b m), lookup-insert k n b m, text_eqb_iff k n)

module _ (s : Server) (u : Upload) where
  unchanged : (e : UploadError) → Begun s u (s, err e)
  unchanged e = ((λ n. refl), refl, refl, refl)

  -- A guard that returns early.
  stop_or :
      (stop : Bool) (e : UploadError) (rest : Server × Result UploadError Text)
      → (stop ≡ false → Begun s u rest)
      → Begun s u (if stop then (s, err e) else rest)
  stop_or true e rest go_on = unchanged e
  stop_or false e rest go_on = go_on refl

  -- An upload starts a build only under a valid name that no deployed app and no build has, and
  -- then adds an empty build of that name and nothing else. An upload that fails leaves the apps,
  -- the registry and every build as they were.
  pub promote_begin-Begun : Begun s u (promote_begin s u)
  unfolding promote_begin
  promote_begin-Begun = stop_or (not u.is_post) _ _ λ _. stop_or (not u.form_ok) _ _ λ _.
      stop_or (text_eqb u.name []) _ _ λ _. stop_or (not (is_valid_deploy_name u.name)) _ _ λ valid.
        stop_or (is_some (lookup u.name s.deployed_apps)) _ _ λ undeployed.
          stop_or (is_some (lookup u.name s.pending_builds)) _ _ λ idle.
            stop_or (not u.has_tarball) _ _
              λ _. in_dir (ground arith) (ground arith) (ground arith) u.temp_dir refl
    where
      in_dir :
          is_valid_deploy_name u.name ≡ true
          → lookup u.name s.deployed_apps ≡ none
          → lookup u.name s.pending_builds ≡ none
          → (temp_dir : Option Text) → u.temp_dir ≡ temp_dir
          → Begun s u (elim temp_dir [
            | none ↦ (s, err no_temp_dir)
            | some dir ↦
                if not u.extracted
                then (s, err bad_tarball)
                else let builds = insert u.name (new_build u.name u.now) s.pending_builds in
                  if not u.ports_ok
                  then (record s { pending_builds = delete u.name builds }, err no_ports)
                  else (record s { pending_builds = builds }, ok dir)
          ])
      in_dir valid undeployed idle none h = unchanged no_temp_dir
      in_dir valid undeployed idle (some dir) h = stop_or (not u.extracted) _ _ λ _.
          elim (Bool-cases u.ports_ok) [
            | inl ready ↦ rw ready (valid, undeployed, idle, h, refl)
            | inr failed ↦ rw failed (
              (λ n. lookup-delete-insert u.name n (new_build u.name u.now) s.pending_builds idle),
              refl,
              refl,
              refl,
            )
          ]

-- In a consistent registry in which the subdomain is free, or the first tunnel of its name that its
-- holder has is the HTTP tunnel on it, a promotion that succeeds hands the subdomain over: a request for
-- it is answered by the new app, at the address where it listens. The name and the address are not
-- empty.
pub deploy_serves :
    (s : Server) (name host upgrade : Text) (app : DeployedApp)
    → IsConsistent s.registry
    → NamedBySubdomain s.registry name
    → app.listen_addr ≢ []
    → name ≢ []
    → extract_subdomain host s.cfg.domain ≡ name
    → (handle_http (deploy name app s) host upgrade).1 ≡ deployed app.listen_addr
unfolding deploy handle_http
deploy_serves s name host upgrade app consistent named listens nonempty h =
    rw (h, evict_tunnel_frees name s.registry consistent named)
      (ground (
        arith,
        text_eqb_iff name [],
        text_eqb_iff app.listen_addr [],
        text_eqb_iff name name,
        lookup-insert name name app s.deployed_apps,
      ))

-- When, in a consistent registry, the client that holds the subdomain has no tunnel named like it, the
-- eviction removes nothing, and after the promotion no request for the subdomain reaches the new app.
pub deploy_shadowed :
    (s : Server) (name host upgrade addr : Text) (app : DeployedApp) (p : ℕ) (e : ClientEntry)
    → IsConsistent s.registry
    → IsLive s.registry p e
    → lookup_http name s.registry ≡ some p
    → find_tunnel name e.tunnels ≡ none
    → extract_subdomain host s.cfg.domain ≡ name
    → ((deploy name app s).registry ≡ s.registry)
      × ((handle_http (deploy name app s) host upgrade).1 ≢ deployed addr)
deploy_shadowed s name host upgrade addr app p e consistent live held unnamed h =
    (same, λ to_app. shadowed (subst (Routed (deploy name app s) name) to_app routed))
  where
    same : (deploy name app s).registry ≡ s.registry
    same =
        unfold deploy in
        (rw (
          evict_tunnel_held name s.registry p e live held,
          remove_tunnel_by_name_missing e.id name s.registry p e live refl unnamed,
        ))

    same_host : extract_subdomain host (deploy name app s).cfg.domain ≡ name
    same_host = unfold deploy in h

    routed : Routed (deploy name app s) name (handle_http (deploy name app s) host upgrade).1
    routed =
        subst (λ n. Routed (deploy name app s) n (handle_http (deploy name app s) host upgrade).1)
          same_host (handle_http-Routed (deploy name app s) host upgrade (rw same consistent))

    shadowed : Routed (deploy name app s) name (deployed addr) → ⊥
    shadowed (free, _, _, _, _) =
        absurd (let clash : some p ≡ none = sym held ∙ (rw same at free) in cc)

-- A name that has a build is refused.
begin_already_building :
    (s : Server) (u : Upload) (b : PendingBuild)
    → u.is_post ≡ true
    → u.form_ok ≡ true
    → is_valid_deploy_name u.name ≡ true
    → lookup u.name s.deployed_apps ≡ none
    → lookup u.name s.pending_builds ≡ some b
    → promote_begin s u ≡ (s, err already_building)
unfolding promote_begin
begin_already_building s u b post form valid undeployed known =
    let (nonempty, _, _) = valid_deploy_name_chars u.name valid in
    let named : text_eqb u.name [] ≡ false = ground (arith, text_eqb_iff u.name []) in
    rw (post, form, named, valid, undeployed, known)

-- A failed build leaves its record, finished, and changes nothing else.
end_build_failed :
    (s : Server) (name dir message : Text) (r : BuildRun) (b : PendingBuild)
    → r.build_error ≡ some message
    → lookup name s.pending_builds ≡ some b
    → let s' = (promote_end s name dir r).0 in
      ((promote_end s name dir r).1 ≡ some build_failed)
      × (s'.deployed_apps ≡ s.deployed_apps)
      × (lookup name s'.pending_builds
          ≡ some (finish (text "nixpacks build failed: " ++ message) (append_lines r.output b)))
unfolding promote_end
end_build_failed s name dir message r b failed known =
    rw (failed, promote_end)
      (
        refl,
        rw (known, update_build) refl,
        rw (known, update_build)
            (ground (
              arith,
              lookup-insert name name
                  (finish (text "nixpacks build failed: " ++ message) (append_lines r.output b))
                  s.pending_builds,
              text_eqb_iff name name,
            )),
      )

-- After a build that failed its record stays, and an upload under the same name that is in order is
-- refused as already building.
pub failed_build_blocks :
    (s : Server) (dir message : Text) (r : BuildRun) (b : PendingBuild) (u : Upload)
    → r.build_error ≡ some message
    → lookup u.name s.pending_builds ≡ some b
    → lookup u.name s.deployed_apps ≡ none
    → u.is_post ≡ true
    → u.form_ok ≡ true
    → is_valid_deploy_name u.name ≡ true
    → let s' = (promote_end s u.name dir r).0 in
      ((promote_end s u.name dir r).1 ≡ some build_failed)
      × (promote_begin s' u ≡ (s', err already_building))
failed_build_blocks s dir message r b u failed known undeployed post form valid =
    let (reported, same, stays) = end_build_failed s u.name dir message r b failed known in
    (
      reported,
      begin_already_building (promote_end s u.name dir r).0 u _ post form valid (rw same undeployed)
          stays,
    )
