-- ===== src/Client/Promoting.antt =====
-- internal/client/promote.go, handlePromote and wsToHTTP. Package net/url enters as a type of URLs with
-- the operations that are used, and the tarball, the form and the request as what they give.
use nnel.Base.{
  ℕ, nat_eqb, Option, none, some, List, [], ◌∷◌, ◌++◌, Text, text, text_eq, ◌==◌, if◌then◌else◌,
  print_nat, trim_right, Result, ok, err,
}
use nnel.Config.{ClientConfig, TunnelConfig}
use nnel.Proto.{Promote, PromoteError}
use nnel.Client.{expand_home}

-- url.Parse, the field Scheme, and String.
pub record UrlPackage : Type 1 where
  pub Parsed : Type 0
  pub parse : Text → Option Parsed
  pub scheme : Parsed → Text
  pub with_scheme : Text → Parsed → Parsed
  pub string : Parsed → Text

unfoldable pub ws_to_http : UrlPackage → Text → Text
ws_to_http urls s = elim (urls.parse s) [
  | none ↦ s
  | some u ↦
      if urls.scheme u == text "wss"
      then urls.string (urls.with_scheme (text "https") u)
      else if urls.scheme u == text "ws"
      then urls.string (urls.with_scheme (text "http") u)
      else urls.string u
]

abbrev pub dir_of : Text → List TunnelConfig → Text
dir_of name [] = []
dir_of name (t ∷ ts) = let later = dir_of name ts in if t.name == name then t.dir else later

-- What becomes of the request: it cannot be built, it fails, or it is answered by a status and a body.
pub data Answer : Type 0 where
  not_built : Answer
  failed : Text → Answer
  answered : ℕ → Text → Answer

-- The form of the upload; an Authorization header is set for a token that is not empty.
pub record UploadRequest : Type 0 where
  pub endpoint : Text
  pub bearer : Text
  pub name : Text
  pub tarball : Text

abbrev pub report : Promote → Text → List PromoteError
report p problem = record { tunnel_name = p.tunnel_name; error = problem } ∷ []

module _ (home_dir : Option Text) (join_path : Text → Text → Text) (trim_space : Text → Text)
    (urls : UrlPackage) (tarball_of : Text → Result Text Text) (post : UploadRequest → Answer) where
  abbrev pub after_post : Promote → Answer → List PromoteError
  after_post p not_built = []
  after_post p (failed problem) = report p (text "upload failed: " ++ problem)
  after_post p (answered status body) =
      if nat_eqb status 200
      then []
      else report p (text "server error " ++ (print_nat status ++ (text ": " ++ trim_space body)))

  abbrev pub upload : ClientConfig → Promote → Result Text Text → List PromoteError
  upload cfg p (err problem) = report p (text "tarball failed: " ++ problem)
  upload cfg p (ok tarball) = after_post p (
      post (record {
        endpoint = trim_right b'/' (ws_to_http urls cfg.server) ++ text "/_2nnel/promote";
        bearer = cfg.auth_token;
        name = p.tunnel_name;
        tarball = tarball;
      }))

  -- What is sent to the server on the control channel.
  unfoldable pub handle_promote : ClientConfig → Promote → List PromoteError
  unfolding ws_to_http
  handle_promote cfg p =
      let dir = dir_of p.tunnel_name cfg.tunnels in
      if dir == []
      then report p (text "no project directory configured — start client with --dir")
      else upload cfg p (tarball_of (expand_home home_dir join_path dir))
