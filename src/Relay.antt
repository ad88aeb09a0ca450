-- ===== src/Relay.antt =====
-- From the dashboard to a client: clientEntry.sendMsg in internal/server/server.go on one side, and
-- controlLoop in internal/client/control.go on the other.
mod Asking
mod Promoting
mod Upload
mod Streams
pub mod Handshake
mod Tests
use nnel.Base.{◌≡◌, refl, true, Option, some, is_int64, Text}
use nnel.Config.{ClientConfig}
use nnel.Proto.{
  Envelope, send, recv, type_add_tunnel, type_remove_tunnel, type_promote, type_set_tunnel_dir,
  marshal_add_tunnel, marshal_remove_tunnel, marshal_promote, marshal_set_tunnel_dir,
}
use nnel.Proto.Encoding.{Json}
use nnel.Proto.RoundTrip
use nnel.Proto.RoundTrip.{message-Arrives}
use nnel.Server.Admin.{Relayed, add_tunnel, remove_tunnel, set_tunnel_dir, promote}
use nnel.Relay.Asking.{Done, Done-dynamic_add, Done-dynamic_remove, Done-set_tunnel_dir}
use nnel.Client.{handle_control}

-- What is written to the control stream.
unfoldable pub sent_message : Relayed → Json
sent_message (add_tunnel m) = send type_add_tunnel (marshal_add_tunnel m)
sent_message (remove_tunnel m) = send type_remove_tunnel (marshal_remove_tunnel m)
sent_message (set_tunnel_dir m) = send type_set_tunnel_dir (marshal_set_tunnel_dir m)
sent_message (promote m) = send type_promote (marshal_promote m)

abbrev pub PortInRange : Relayed → Type 0
PortInRange (add_tunnel m) = is_int64 m.remote_port ≡ true
PortInRange _ = Unit

module _ (home_dir : Option Text) (join_path : Text → Text → Text) where
  -- What the dashboard makes the server send, with a port in the range of an integer, is read by the
  -- client as an envelope on which the client, if its sends succeed, does what was asked for: a tunnel
  -- that is added stands behind all others and is registered under the subdomain that it names, or
  -- else, for HTTP, under its name; all tunnels of a name are removed, and no others; the first tunnel
  -- of a name gets the directory, which lies in the home directory, if that is known, where it starts
  -- with a tilde; or a promotion of the tunnel starts. Each change of the tunnels is saved, and nothing
  -- else of the configuration changes.
  pub sent_message-handled :
      (m : Relayed) (cfg : ClientConfig)
      → PortInRange m
      → (env : Envelope) × (recv (sent_message m) ≡ some env)
        × Done home_dir join_path m cfg (handle_control home_dir join_path true env cfg)
  unfolding sent_message handle_control
  sent_message-handled (add_tunnel m) cfg h =
      let (env, got, typed, read) = message-Arrives (RoundTrip.add_tunnel m) h in
      (env, got, rw (typed, read) (Done-dynamic_add home_dir join_path m cfg))
  sent_message-handled (remove_tunnel m) cfg h =
      let (env, got, typed, read) = message-Arrives (RoundTrip.remove_tunnel m) tt in
      (env, got, rw (typed, read) (Done-dynamic_remove home_dir join_path m cfg))
  sent_message-handled (set_tunnel_dir m) cfg h =
      let (env, got, typed, read) = message-Arrives (RoundTrip.set_tunnel_dir m) tt in
      (env, got, rw (typed, read) (Done-set_tunnel_dir home_dir join_path m cfg))
  sent_message-handled (promote m) cfg h =
      let (env, got, typed, read) = message-Arrives (RoundTrip.promote m) tt in
      (env, got, rw (typed, read) (refl, refl, refl, refl))
