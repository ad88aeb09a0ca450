-- ===== src/Cmd/Install.antt =====
-- cmd/client/main.go, runInstall: the configuration file and the service file that it writes. The
-- machine enters as what its calls give, yaml.Marshal as the configuration that is written, and
-- systemctl, whose errors are only printed, is left out.
pub mod Service
pub mod Laws
use nnel.Base.{
  ℕ, Bool, true, false, not, Option, none, some, List, [], ◌∷◌, ◌++◌, Text, text, text_eq, ◌==◌,
  if◌then◌else◌, join, join_path, Result, ok, err,
}
use nnel.Config.{ClientConfig, TunnelConfig}
use nnel.Cmd.Specs.{SpecError, parse_tunnel_specs}
use nnel.Cmd.Connect.{Machine, given_or, resolve_client_name}

pub data InstallError : Type 0 where
  not_root server_required no_binary : InstallError
  bad_spec : SpecError → InstallError
  no_config_dir no_config_file no_service_file : InstallError

pub record InstallFlags : Type 0 where
  pub server : Text
  pub auth_token : Text
  pub tunnels : List Text
  pub config_dir : Text
  pub name : Text

-- Whether the user is root; the path of the program, if it is found; and whether the directory is made
-- and the two files are written.
pub record Host : Type 0 where
  pub is_root : Bool
  pub binary : Option Text
  pub dir_made : Bool
  pub config_written : Bool
  pub service_written : Bool

-- The template, filled in: the lines behind the first, and the whole text.
abbrev pub service_lines : Text → Text → List Text
service_lines binary config_file =
    text "Description=2nnel tunnel client"
    ∷ text "After=network.target network-online.target"
    ∷ text "Wants=network-online.target"
    ∷ []
    ∷ text "[Service]"
    ∷ text "Type=simple"
    ∷ (text "ExecStart=" ++ (binary ++ (text " -c " ++ config_file)))
    ∷ text "Restart=always"
    ∷ text "RestartSec=5"
    ∷ []
    ∷ text "[Install]"
    ∷ text "WantedBy=multi-user.target"
    ∷ []
    ∷ []

abbrev pub service_text : Text → Text → Text
service_text binary config_file = join 10 (text "[Unit]" ∷ service_lines binary config_file)

pub record Installed : Type 0 where
  pub config_file : Text
  pub config : ClientConfig
  pub service : Text

abbrev pub installed : InstallFlags → Machine → Text → List TunnelConfig → Installed
installed f m binary ts =
    let file = join_path f.config_dir (text "client.yaml") in
    record {
      config_file = file;
      config = record {
        name = given_or f.name (resolve_client_name m);
        server = f.server;
        auth_token = f.auth_token;
        tunnels = ts;
        config_file = file;
      };
      service = service_text binary file;
    }

-- The guards behind the parsing of the tunnels.
abbrev pub install_on :
    InstallFlags → Machine → Host → List TunnelConfig → Result InstallError Installed
install_on f m h ts = elim h.binary [
  | none ↦ err no_binary
  | some binary ↦
      if not h.dir_made
      then err no_config_dir
      else if not h.config_written
      then err no_config_file
      else if not h.service_written
      then err no_service_file
      else ok (installed f m binary ts)
]

unfoldable pub run_install : InstallFlags → Machine → Host → Result InstallError Installed
unfolding resolve_client_name
run_install f m h =
    if not h.is_root
    then err not_root
    else if f.server == []
    then err server_required
    else elim (parse_tunnel_specs f.tunnels) [
      | err e ↦ err (bad_spec e)
      | ok ts ↦ install_on f m h ts
    ]
