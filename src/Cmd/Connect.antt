-- ===== src/Cmd/Connect.antt =====
-- cmd/client/main.go, runClient up to the start of the client, and resolveClientName: the configuration
-- of the flags or of a file. The file, the terminal and the name of the machine enter as what they
-- give.
pub mod Laws
use nnel.Base.{
  ◌≡◌, ◌≢◌, refl, sym, ap, subst, ◌∙◌, ◌⊎◌, inl, inr, Bool, true, false, not, ◌&&◌, Option, none,
  some, List, [], ◌∷◌, ℤ, Text, text, text_eq, text_eqb, text_eqb_iff, ◌==◌, ==_dec, if◌then◌else◌,
  Result, ok, err, ok-injective, Bool-cases, arith,
}
use nnel.Config.{ClientConfig, TunnelConfig}
use nnel.Cmd.Specs.{SpecError, parse_tunnel_specs}
use nnel.Cmd.Specs.Laws.{SpellAll, parse_tunnel_specs-SpellAll}

pub record ClientFlags : Type 0 where
  pub config : Text
  pub name : Text
  pub server : Text
  pub auth_token : Text
  pub tunnels : List Text
  pub dir : Text

pub data ClientError : Type 0 where
  read_config parse_config server_required : ClientError
  bad_spec : SpecError → ClientError

-- The machine: its name, if it is known; whether the input is a terminal, and the line that is then
-- read, without the white space around it.
pub record Machine : Type 0 where
  pub hostname : Text
  pub interactive : Bool
  pub line : Option Text

abbrev pub given_or : Text → Text → Text
given_or given other = if given == [] then other else given

unfoldable pub resolve_client_name : Machine → Text
resolve_client_name m =
    let host = given_or m.hostname (text "client") in
    if not m.interactive then host else elim m.line [ none ↦ host | some line ↦ given_or line host ]

-- `--dir` is that of the only tunnel.
abbrev pub with_dir : Text → List TunnelConfig → List TunnelConfig
with_dir dir [] = []
with_dir dir (t ∷ []) = (if dir == [] then t else record t { dir = dir }) ∷ []
with_dir dir (t ∷ u ∷ ts) = t ∷ u ∷ ts

abbrev pub config_of_tunnels :
    ClientFlags → Result SpecError (List TunnelConfig) → Result ClientError ClientConfig
config_of_tunnels f (err e) = err (bad_spec e)
config_of_tunnels f (ok ts) = ok (record {
  name = [];
  server = f.server;
  auth_token = f.auth_token;
  tunnels = with_dir f.dir ts;
  config_file = [];
})

abbrev pub with_file : Text → Result ClientError ClientConfig → Result ClientError ClientConfig
with_file path (err e) = err e
with_file path (ok cfg) = ok (record cfg { config_file = path })

-- The configuration, and whether it is written back to its file.
abbrev pub named : ClientFlags → Machine → ClientConfig → ClientConfig × Bool
named f m cfg =
    let name = given_or f.name cfg.name in
    if name == []
    then (
      record cfg { name = resolve_client_name m },
      not (cfg.config_file == []) && not (resolve_client_name m == []),
    )
    else (record cfg { name = name }, false)

abbrev pub then_named :
    ClientFlags
    → Machine
    → Result ClientError ClientConfig
    → Result ClientError (ClientConfig × Bool)
then_named f m (err e) = err e
then_named f m (ok cfg) = ok (named f m cfg)

-- viper, on the file at a path.
module _ (read_file : Text → Result ClientError ClientConfig) where
  unfoldable pub client_config : ClientFlags → Machine → Result ClientError (ClientConfig × Bool)
  unfolding resolve_client_name
  client_config f m = then_named f m (
      if f.config == []
      then if f.server == []
        then err server_required
        else config_of_tunnels f (parse_tunnel_specs f.tunnels)
      else with_file f.config (read_file f.config))
