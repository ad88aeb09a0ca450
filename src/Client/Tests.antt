-- ===== src/Client/Tests.antt =====
-- The theorems about the client at concrete inputs.
use nnel.Base.{
  ◌≡◌, refl, true, Option, none, some, [], ◌∷◌, ◌++◌, All, ◌≤◌, length, pos, Text, text, arith,
}
use nnel.Config.{ClientConfig, TunnelConfig}
use nnel.Proto.{
  Envelope, AddTunnel, payload, unmarshal_add_tunnel, type_auth_ack, type_tunnel_registered,
}
use nnel.Proto.RoundTrip.{Message}
use nnel.Proto.Wire.{envelope}
use nnel.Client.{
  register_tunnel, add_message, register_message, connect, register_all, read_answers, dynamic_add,
  handle_control,
}
use nnel.Client.Connecting.{requests}
use nnel.Client.Backoff.{base_delay, max_delay, waits, failures}
use nnel.Client.Running.{Attempt, dial_failed, opened, State, connect_session, control_loop, run}
use nnel.Client.Running.Laws.{SameBut, connects, run-SameBut, run-delays}

abbrev web : TunnelConfig
web = record {
  name = text "web";
  local = text "localhost:3000";
  type = text "http";
  subdomain = [];
  remote_port = pos 0;
  dir = [];
}

abbrev client : ClientConfig
client = record {
  name = text "laptop";
  server = text "ex.io";
  auth_token = text "key";
  tunnels = web ∷ [];
  config_file = [];
}

abbrev docs : AddTunnel
docs = record {
  type = text "http";
  name = text "docs";
  local_addr = text "localhost:4000";
  remote_port = pos 0;
  subdomain = [];
}

abbrev ack : Envelope
ack = record { type = type_auth_ack; raw = none }

abbrev answer : Envelope
answer = record { type = type_tunnel_registered; raw = none }

abbrev filed : ClientConfig
filed = record client { config_file = text "client.yaml" }

abbrev fails : Attempt
fails = record {
  dialled = dial_failed;
  can_send = true;
  first = none;
  sends = [];
  answers = [];
  messages = [];
}

-- The dashboard adds a tunnel.
abbrev works : Attempt
works = record {
  dialled = opened;
  can_send = true;
  first = some ack;
  sends = [];
  answers = some answer ∷ [];
  messages = (envelope (Message.add_tunnel docs), true) ∷ [];
}

abbrev at_start : State
at_start = record { cfg = filed; file = filed; sent = []; promotes = []; slept = [] }

abbrev home : Option Text
home = none

abbrev join_slash : Text → Text → Text
join_slash dir path = dir ++ b'/' ∷ path

run-SameBut_example :
    ((run home join_slash (fails ∷ works ∷ []) (0, at_start)).1.file
      ≡ (run home join_slash (fails ∷ works ∷ []) (0, at_start)).1.cfg)
    × SameBut filed (run home join_slash (fails ∷ works ∷ []) (0, at_start)).1.cfg
run-SameBut_example =
    run-SameBut home join_slash (fails ∷ works ∷ []) 0 at_start (λ e. ground (arith, e)) refl

two_tunnels_in_the_end :
    requests (run home join_slash (fails ∷ works ∷ []) (0, at_start)).1.cfg.tunnels
    ≡ register_tunnel (register_message web) ∷ register_tunnel (add_message docs) ∷ []
unfolding run connect register_all read_answers connect_session control_loop handle_control payload
    dynamic_add unmarshal_add_tunnel
two_tunnels_in_the_end = refl

run-delays_example :
    ((run home join_slash (fails ∷ works ∷ fails ∷ []) (0, at_start)).1.slept
      ≡ waits base_delay (connects home join_slash (fails ∷ works ∷ fails ∷ []) (0, at_start)))
    × All
        (λ d. (base_delay ≤ d) × (d ≤ max_delay))
        (run home join_slash (fails ∷ works ∷ fails ∷ []) (0, at_start)).1.slept
    × (length (run home join_slash (fails ∷ works ∷ fails ∷ []) (0, at_start)).1.slept
        ≡ failures (connects home join_slash (fails ∷ works ∷ fails ∷ []) (0, at_start)))
run-delays_example = run-delays home join_slash (fails ∷ works ∷ fails ∷ []) at_start refl
