-- ===== src/Server/Tests/Sessions.antt =====
-- The theorems about sessions and about two clients at concrete inputs.
use nnel.Base.{arith, ◌≡◌, refl, true, false, some, [], ◌∷◌, text, lookup, insert, arith}
use nnel.Proto.{marshal_auth, unmarshal_auth, Envelope, payload}
use nnel.Server.Registry.{
  Registry, ClientEntry, register_http, is_subdomain_taken, new_registry, add_client, append_tunnel,
  remove_client,
}
use nnel.Server.Registry.Routes.{key_eq}
use nnel.Server.Registry.Consistent.{IsLive}
use nnel.Server.Registry.Race.{both-register_http}
use nnel.Server.Control.{authenticate}
use nnel.Server.Control.Authenticating.{Checked, authenticate-Checked}
use nnel.Server.Control.Sessions.{Connection, run}
use nnel.Server.Control.Sessions.Laws.{LeavesNoTrace, run-LeavesNoTrace}
use nnel.Server.Tests.{
  parse_nothing, listen_at, sample_cfg, laptop, web_envelope, web_tunnel, connected,
  connected-IsConsistent, server,
}

abbrev phone : ClientEntry
phone = record laptop { id = text "c2"; name = text "phone"; session = 5; ctrl = some 6 }

abbrev two_clients : Registry
two_clients = add_client phone connected

two_clients-IsLive : IsLive two_clients 0 laptop
unfolding add_client new_registry lookup insert
two_clients-IsLive = (refl, refl)

phone-IsLive : IsLive two_clients 1 phone
unfolding add_client new_registry lookup insert
phone-IsLive = (refl, refl)

both-register_http_example :
    (s s' : Registry) × (register_http (text "c1") (text "web") web_tunnel two_clients ≡ some s)
    × (register_http (text "c2") (text "web") web_tunnel s ≡ some s')
    × (is_subdomain_taken (text "web") (remove_client (text "c1") s').0 ≡ false)
    × IsLive (remove_client (text "c1") s').0 1 (append_tunnel web_tunnel phone)
both-register_http_example =
    both-register_http (text "web") web_tunnel web_tunnel 0 1 laptop phone two_clients refl refl
      two_clients-IsLive phone-IsLive (λ same. omega arith)

-- A client with the server's token.
abbrev key_envelope : Envelope
key_envelope = record {
  type = text "auth";
  raw =
      some
        (marshal_auth (record { token = text "key"; version = text "1.0"; name = text "laptop" }));
}

authenticate-Checked_example :
    Checked sample_cfg
      (text "c1")
      (some key_envelope)
      (authenticate sample_cfg (text "c1") true (some key_envelope))
authenticate-Checked_example = authenticate-Checked sample_cfg (text "c1") true (some key_envelope)

key_is_let_in :
    (authenticate sample_cfg (text "c1") true (some key_envelope)).1
    ≡ some (text "c1", text "laptop")
unfolding authenticate payload unmarshal_auth
key_is_let_in = refl

abbrev phone_session : Connection
phone_session = record {
  session_handle = 5;
  ctrl_handle = 6;
  opened = true;
  remote = text "10.0.0.2:1";
  now = 1;
  new_id = text "c2";
  ack_sent = true;
  first = some key_envelope;
  messages = web_envelope ∷ [];
}

run-LeavesNoTrace_example :
    LeavesNoTrace (server connected) (run parse_nothing listen_at (server connected) phone_session)
unfolding add_client new_registry lookup insert
run-LeavesNoTrace_example =
    run-LeavesNoTrace parse_nothing listen_at (server connected) phone_session
      (record { consistent = connected-IsConsistent; keyed = tt }) refl
