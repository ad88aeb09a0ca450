-- ===== src/Server/Control/Problems.antt =====
-- internal/server/control.go: the texts of the errors of a registration, and the messages that carry
-- what the server answers. strconv.Quote, by which `%q` prints, is a parameter.
use nnel.Base.{◌++◌, Text, text, print_int}
use nnel.Proto.RoundTrip.{Message}
use nnel.Server.Ports.{PickError, no_range, no_free_port}
use nnel.Server.Control.{
  TunnelProblem, unknown_type, subdomain_in_use, deployed_app_in_use, no_port, port_not_allowed,
  port_in_use, listen_failed, Reply, auth_ack, auth_error, tunnel_registered, tunnel_error,
}

abbrev pub pick_error_text : PickError → Text
pick_error_text no_range =
    text "no TCP port range configured — use --tcp-port-range (e.g. 2200-2300)"
pick_error_text (no_free_port low high) =
    text "no free port in range " ++ (print_int low ++ (text "-" ++ print_int high))

module _ (quote : Text → Text) where
  abbrev pub problem_text : TunnelProblem → Text
  problem_text (unknown_type t) = text "unknown tunnel type " ++ quote t
  problem_text (subdomain_in_use sub) = text "subdomain " ++ (quote sub ++ text " already in use")
  problem_text (deployed_app_in_use sub) =
      text "subdomain " ++ (quote sub ++ text " already in use by a deployed app")
  problem_text (no_port problem) = pick_error_text problem
  problem_text (port_not_allowed port) =
      text "port " ++ (print_int port ++ text " not in allowed list")
  problem_text (port_in_use port) = text "port " ++ (print_int port ++ text " already in use")
  problem_text (listen_failed port message) =
      text "listen port " ++ (print_int port ++ (text ": " ++ message))

  abbrev pub reply_message : Reply → Message
  reply_message (auth_ack id) = Message.auth_ack (record { client_id = id })
  reply_message (auth_error problem) = Message.auth_error (record { error = problem })
  reply_message (tunnel_registered name url) =
      Message.tunnel_registered (record { name = name; public_url = url })
  reply_message (tunnel_error name problem) =
      Message.tunnel_error (record { name = name; error = problem_text problem })
