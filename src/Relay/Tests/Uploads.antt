-- ===== src/Relay/Tests/Uploads.antt =====
-- An upload and a stream, from one end to the other, at concrete inputs.
use nnel.Base.{
  ◌≡◌, Bool, true, false, Option, none, some, List, [], ◌∷◌, ◌++◌, Text, text, text_eq, ◌==◌,
  if◌then◌else◌, ok, pos, Result, keep,
}
use nnel.Config.{ClientConfig}
use nnel.Proto.Encoding.{Json}
use nnel.Proto.{marshal_stream_header}
use nnel.Server.Registry.{TunnelEntry, http}
use nnel.Server.Deploy.Archive.{TarEntry}
use nnel.Server.Streams.{Meeting, complete}
use nnel.Client.Packing.{Nodes, file, folder, nil, cons, directory, parse_gitignore, create_tarball}
use nnel.Client.Packing.Laws.{collect, is_admitted, visits_all, create_tarball-collect}
use nnel.Relay.Streams.{header_of}

-- A project with a file, a cache, a directory that its .gitignore names, and one that cannot be read.
abbrev project : Nodes
project = cons (file (text "go.mod") 420 (some (text "module m"))) (
    cons (folder (text "node_modules") false nil) (
      cons
        (folder (text "src") true (
          cons (file (text "main.go") 420 (some (text "package main")))
            (cons (file (text "a.pyc") 420 none) nil)))
        (cons (folder (text "tmp") true (cons (file (text "big") 420 none) nil)) nil)))

abbrev same_text : Text → Text → Bool
same_text pattern name = pattern == name

abbrev ignored : Option (List Text)
ignored = some (text "# caches" ∷ text "tmp" ∷ [])

abbrev packed : List TarEntry
packed =
    record { name = text "go.mod"; is_dir = false; mode = 420; content = text "module m" }
    ∷ record {
      name = text "src/main.go";
      is_dir = false;
      mode = 420;
      content = text "package main";
    }
    ∷ []

create_tarball-collect_example :
    create_tarball (λ line. line) same_text (directory true project) ignored
    ≡ collect (
        keep
          (is_admitted same_text (parse_gitignore (λ line. line) ignored))
          (visits_all [] project))
create_tarball-collect_example = create_tarball-collect (λ line. line) same_text ignored project

abbrev web : TunnelEntry
web = record {
  name = text "web";
  tunnel_type = http;
  subdomain = text "web";
  remote_port = pos 0;
  local_addr = text "localhost:3000";
  has_dir = false;
  dir = [];
  tcp_ln = none;
  bytes_in = 0;
  bytes_out = 0;
  requests = 0;
  active_conns = 0;
}

abbrev laptop : ClientConfig
laptop = record {
  name = text "laptop";
  server = text "ex.io";
  auth_token = [];
  tunnels = [];
  config_file = [];
}

abbrev web_json : Text
web_json = text "{\"tunnel_name\":\"web\",\"local_addr\":\"localhost:3000\"}"

abbrev to_text : Json → Text
to_text j = web_json

abbrev of_text : Text → Option Json
of_text line =
    if line == web_json ++ b'\n' ∷ [] then some (marshal_stream_header (header_of web)) else none

abbrev up : Text → Result Text (Unit {0})
up addr = ok tt

abbrev answered : Meeting
answered = record {
  opens = true;
  header_write = complete;
  request_write = complete;
  read = 40;
  is_response = true;
}
