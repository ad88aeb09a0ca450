-- ===== src/Relay/Tests/Handshakes.antt =====
-- The theorems about the handshake at concrete inputs.
use nnel.Base.{
  ℕ, ◌≡◌, refl, inr, true, none, some, Option, List, [], ◌∷◌, ◌++◌, map, ℤ, pos, Text, text, Result,
  ok, lookup, text_eq, arith,
}
use nnel.Config.{ClientConfig}
use nnel.Proto.Wire.{transmit}
use nnel.Server.Registry.{new_registry, session}
use nnel.Server.Registry.Consistent.{new_registry-IsConsistent}
use nnel.Server.State.{Server}
use nnel.Server.Url.{Url}
use nnel.Server.Control.{Reply, auth_ack, auth_error, authenticate}
use nnel.Server.Control.Problems.{reply_message}
use nnel.Server.Control.Sessions.{Connection, loop, run, control_stream, resource}
use nnel.Server.Control.Sessions.Serving.{AnswersTo}
use nnel.Client.{auth, auth_rejected, auth_message, register_message, connect}
use nnel.Client.Connecting.{requests}
use nnel.Relay.Handshake.{connection_of, reads, entered, handshake, handshake_rejected}
use nnel.Relay.Tests.Promotions.{relay_cfg, laptop}

abbrev no_urls : Text → Option Url
no_urls s = none

abbrev listen_at : ℤ → Result Text ℕ
listen_at port = ok 7

abbrev quoted : Text → Text
quoted s = b'"' ∷ (s ++ b'"' ∷ [])

-- A server with a token, and nothing else yet.
abbrev locked : Server
locked = record {
  cfg = record relay_cfg { auth_token = text "key" };
  registry = new_registry;
  deployed_apps = [];
  pending_builds = [];
}

abbrev keyed : ClientConfig
keyed = record laptop { auth_token = text "key" }

abbrev dialled : Connection
dialled = record {
  session_handle = 3;
  ctrl_handle = 4;
  opened = true;
  remote = text "10.0.0.1:1";
  now = 0;
  new_id = text "c1";
  ack_sent = true;
  first = none;
  messages = [];
}

unknown_id : lookup (text "c1") new_registry.by_id ≡ none
unfolding lookup new_registry
unknown_id = refl

handshake_example :
    (t : Server) × (replies : List Reply) × (authenticate locked.cfg
        (text "c1")
        true
        (connection_of dialled (pos 9) keyed).first
      ≡ (auth_ack (text "c1") ∷ [], some (text "c1", text "laptop")))
    × (loop no_urls listen_at
          (text "c1")
          (connection_of dialled (pos 9) keyed).messages
          (entered locked dialled keyed)
        ≡ some (t, replies))
    × AnswersTo (text "c1") t [] (map register_message keyed.tunnels) replies
    × (connect keyed true
          (transmit (reply_message quoted (auth_ack (text "c1"))))
          []
          (reads quoted replies)
        ≡ (auth (auth_message keyed) ∷ requests keyed.tunnels, none))
handshake_example =
    handshake no_urls listen_at quoted locked dialled (pos 9) keyed
      (record { consistent = new_registry-IsConsistent; keyed = tt }) unknown_id (inr refl)
      (refl, tt)

handshake_rejected_example :
    (run no_urls listen_at locked (connection_of dialled (pos 9) laptop)
      ≡ some (
        locked,
        auth_error (text "invalid token") ∷ [],
        control_stream 4 ∷ resource (session 3) ∷ [],
      ))
    × (connect laptop true
          (transmit (reply_message quoted (auth_error (text "invalid token"))))
          []
          []
        ≡ (auth (auth_message laptop) ∷ [], some (auth_rejected (text "invalid token"))))
handshake_rejected_example =
    handshake_rejected no_urls listen_at quoted locked dialled (pos 9) laptop [] []
      (λ e. ground (arith, e)) (λ e. ground (arith, e))
