-- ===== src/Relay/Tests.antt =====
-- A message of the dashboard at a concrete input.
mod Uploads
mod Promotions
mod Handshakes
use nnel.Base.{◌≡◌, refl, none, some, [], ◌++◌, Text, text, pos, true}
use nnel.Config.{ClientConfig}
use nnel.Proto.{AddTunnel, Envelope, recv}
use nnel.Server.Admin.{add_tunnel}
use nnel.Client.{handle_control}
use nnel.Relay.Asking.{Done}
use nnel.Relay.{sent_message, sent_message-handled}

abbrev docs : AddTunnel
docs = record {
  type = text "http";
  name = text "docs";
  local_addr = text "localhost:4000";
  remote_port = pos 0;
  subdomain = [];
}

abbrev client : ClientConfig
client = record {
  name = text "laptop";
  server = text "ex.io";
  auth_token = [];
  tunnels = [];
  config_file = [];
}

abbrev join_with_slash : Text → Text → Text
join_with_slash home path = home ++ path

sent_message-handled_example :
    (env : Envelope) × (recv (sent_message (add_tunnel docs)) ≡ some env)
    × Done none join_with_slash
        (add_tunnel docs)
        client
        (handle_control none join_with_slash true env client)
sent_message-handled_example =
    sent_message-handled none join_with_slash (add_tunnel docs) client refl
