-- ===== src/Cmd/Tests.antt =====
-- The theorems about the command lines at concrete inputs.
use nnel.Base.{
  ◌≡◌, inr, Text, true, false, Option, some, Result, ok, err, refl, [], ◌∷◌, ◌++◌, pos, text, arith,
}
use nnel.Config.{ClientConfig}
use nnel.Proto.{RegisterTunnel}
use nnel.Client.{register_tunnel}
use nnel.Client.Connecting.{requests}
use nnel.Server.Url.{Url}
use nnel.Server.Http.{extract_subdomain}
use nnel.Server.Control.{wanted_subdomain}
use nnel.Cmd.Connect.{ClientFlags, ClientError, read_config, Machine}
use nnel.Cmd.Specs.{http_config}
use nnel.Cmd.Share.{Sharing, share_config, run_share}
use nnel.Cmd.Share.Laws.{run_share-extract_subdomain}
use nnel.Cmd.Install.{InstallFlags, Host, Installed, installed}

abbrev two_tunnels : ClientFlags
two_tunnels = record {
  config = [];
  name = [];
  server = text "wss://ex.io";
  auth_token = text "s3";
  tunnels = text "db:localhost:5432:tcp:2001" ∷ text "web:localhost:3000" ∷ [];
  dir = text "/src";
}

abbrev laptop : Machine
laptop = record { hostname = text "laptop"; interactive = true; line = some [] }

abbrev no_file : Text → Result ClientError ClientConfig
no_file path = err read_config

abbrev sharing : Sharing
sharing = record {
  server = text "wss://ex.io:8443";
  auth_token = [];
  name = [];
  is_dir = some false;
  filename = text "a.pdf";
  random = text "0badcafe";
  port = some (pos 40000);
}

abbrev parse_ex : Text → Option Url
parse_ex s = some (record { scheme = text "wss"; host = text "ex.io:8443" })

run_share-extract_subdomain_example :
    (scheme : Text) × (host : Text) × (m : RegisterTunnel) × (text
        "https://share-0badcafe.ex.io:8443/a.pdf"
      ≡ scheme ++ (text "://" ++ (host ++ b'/' ∷ text "a.pdf")))
    × (requests (share_config sharing (pos 40000)).tunnels ≡ register_tunnel m ∷ [])
    × (m.type ≡ text "http")
    × (extract_subdomain host (text "ex.io") ≡ wanted_subdomain m)
unfolding run_share
run_share-extract_subdomain_example =
    run_share-extract_subdomain parse_ex sharing
      (record { scheme = text "wss"; host = text "ex.io:8443" }) (text "ex.io") (text "8443")
      (text "https://share-0badcafe.ex.io:8443/a.pdf") (share_config sharing (pos 40000)) refl refl
      (inr refl) (λ e. ground (arith, e)) refl refl refl refl

abbrev service : InstallFlags
service = record {
  server = text "wss://ex.io";
  auth_token = text "s3";
  tunnels = text "web:localhost:3000" ∷ [];
  config_dir = text "/etc/2nnel";
  name = text "box";
}

abbrev box : Host
box = record {
  is_root = true;
  binary = some (text "/usr/bin/2nnel");
  dir_made = true;
  config_written = true;
  service_written = true;
}

abbrev set_up : Installed
set_up =
    installed service laptop (text "/usr/bin/2nnel")
      (http_config (text "web") (text "localhost:3000") ∷ [])

abbrev read_back : Text → Result ClientError ClientConfig
read_back path = ok (record set_up.config { config_file = [] })
