-- ===== src/Server/Admin/Paths.antt =====
-- internal/server/dashboard.go, handleAdmin: the handler that a method and a path select. The path
-- is what follows /_2nnel, decoded by net/http. Each test of the source is kept, with the method's
-- test in front of the others.
pub mod Laws
use nnel.Base.{
  ℕ, Bool, true, false, ◌&&◌, ◌||◌, Option, none, some, List, [], ◌∷◌, Text, text, ◌==◌, text_eq,
  if◌then◌else◌, drop, length, has_prefix, has_suffix, trim_prefix, trim_suffix,
}
use nnel.Server.Registry.{is_some}

pub data Method : Type 0 where
  get post patch delete other : Method

abbrev pub method_eqb : Method → Method → Bool
method_eqb get get = true
method_eqb post post = true
method_eqb patch patch = true
method_eqb delete delete = true
method_eqb other other = true
method_eqb _ _ = false

-- The handler and the arguments that it takes from the path.
pub data AdminRoute : Type 0 where
  index metrics stream promote_upload not_found : AdminRoute
  deploy_logs delete_deploy dismiss disconnect add_tunnel : Text → AdminRoute
  set_dir promote_trigger remove_tunnel : Text → Text → AdminRoute

-- strings.SplitN at a nonempty text, into two parts at most: the two parts, if the text occurs.
unfoldable pub split_once : Text → Text → Option (Text × Text)
split_once at [] = none
split_once at (c ∷ s) =
    let rest = split_once at s in
    if has_prefix (c ∷ s) at
    then some ([], drop (length at) (c ∷ s))
    else elim rest [ none ↦ none | some (front, back) ↦ some (c ∷ front, back) ]

-- The id of the client and what follows "/tunnels/".
abbrev pub tunnel_parts : Text → Option (Text × Text)
tunnel_parts path = split_once (text "/tunnels/") (trim_prefix path (text "/clients/"))

abbrev pub with_parts : (Text → Text → AdminRoute) → Option (Text × Text) → AdminRoute
with_parts handler none = not_found
with_parts handler (some (id, rest)) = handler id rest

-- strings.Contains
abbrev pub contains_text : Text → Text → Bool
contains_text s at = is_some (split_once at s)

-- The cases from the last one up.
abbrev pub tunnel_routes : Method → Text → AdminRoute
tunnel_routes m path =
    if method_eqb m patch
      && has_prefix path (text "/clients/")
      && contains_text path (text "/tunnels/")
      && has_suffix path (text "/dir")
    then with_parts (λ id rest. set_dir id (trim_suffix rest (text "/dir"))) (tunnel_parts path)
    else if method_eqb m post
        && has_prefix path (text "/clients/")
        && contains_text path (text "/tunnels/")
        && has_suffix path (text "/promote")
    then with_parts (λ id rest. promote_trigger id (trim_suffix rest (text "/promote")))
        (tunnel_parts path)
    else if method_eqb m delete
        && has_prefix path (text "/clients/")
        && contains_text path (text "/tunnels/")
    then with_parts remove_tunnel (tunnel_parts path)
    else not_found

abbrev pub client_routes : Method → Text → AdminRoute
client_routes m path =
    if method_eqb m post
      && has_prefix path (text "/clients/")
      && has_suffix path (text "/disconnect")
    then disconnect (trim_suffix (trim_prefix path (text "/clients/")) (text "/disconnect"))
    else if method_eqb m post
        && has_prefix path (text "/clients/")
        && has_suffix path (text "/tunnels")
    then add_tunnel (trim_suffix (trim_prefix path (text "/clients/")) (text "/tunnels"))
    else tunnel_routes m path

unfoldable pub handle_admin : Method → Text → AdminRoute
unfolding split_once
handle_admin m path =
    if path == [] || path == text "/"
    then index
    else if path == text "/metrics"
    then metrics
    else if path == text "/stream"
    then stream
    else if method_eqb m post && path == text "/promote"
    then promote_upload
    else if method_eqb m get && has_prefix path (text "/promote/") && has_suffix path (text "/logs")
    then deploy_logs (trim_suffix (trim_prefix path (text "/promote/")) (text "/logs"))
    else if method_eqb m delete && has_prefix path (text "/promote/")
    then delete_deploy (trim_prefix path (text "/promote/"))
    else if method_eqb m delete && has_prefix path (text "/builds/")
    then dismiss (trim_prefix path (text "/builds/"))
    else client_routes m path
