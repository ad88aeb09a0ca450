-- ===== src/Server/Tests/Archives.antt =====
-- The theorems about archives, the detection of a port and streams at concrete inputs.
use nnel.Base.{
  ◌≡◌, refl, Bool, true, false, none, some, List, [], ◌∷◌, ◌++◌, pos, Text, text, text_eqb, atoi,
  print_int, All,
}
use nnel.Proto.Encoding.{Json}
use nnel.Server.Registry.{TunnelEntry, http}
use nnel.Server.Deploy.Archive.{TarEntry, Tarball, Write, extract_tarball}
use nnel.Server.Deploy.Archive.Laws.{Inside, path_of, Inside-extract_tarball}
use nnel.Server.Deploy.Detecting.{Poll, detect_container_port}
use nnel.Server.Streams.{
  Meeting, Copied, complete, cut_at, header_line, round_trip, forward_tcp, handle_ws_proxy,
}
use nnel.Server.Streams.Laws.{EndsWell, Counted, PipeEnds, forward_tcp-handle_ws_proxy-round_trip}

abbrev entry : Text → TarEntry
entry name = record { name = name; is_dir = false; mode = 420; content = text "x" }

abbrev upload : Tarball
upload = record {
  is_gzip = true;
  entries =
      entry (text "a/b")
      ∷ entry (text "../x")
      ∷ entry (text "/etc/p")
      ∷ entry (text "a/../../y")
      ∷ [];
  ends_well = true;
}

abbrev full_disk : List Write → Write → Bool
full_disk [] w = true
full_disk (d ∷ done) w = false

Inside-extract_tarball_example :
    All
      (λ w. Inside (text "/srv/d") (path_of w))
      (extract_tarball full_disk (text "/srv/d") upload).0
Inside-extract_tarball_example = Inside-extract_tarball full_disk b'/' (text "srv/d") upload

abbrev ss_before : Text
ss_before = text "LISTEN 0 128 0.0.0.0:8080 0.0.0.0:*\n"

abbrev ss_after : Text
ss_after =
    text
      "LISTEN 0 128 0.0.0.0:8080 0.0.0.0:*\nLISTEN 0 128 127.0.0.1:9229 *:*\nLISTEN 0 511 *:3000 *:*\n"

abbrev ipv6_only : Poll
ipv6_only = record { out = ss_after; accepts = λ i addr. text_eqb addr (text "[::1]:3000") }

abbrev silent : Poll
silent = record { out = ss_before; accepts = λ i addr. true }

-- The port of the app is found behind the one that was open before and the one of the debugger.
finds_ipv6 :
    detect_container_port (pos 8080 ∷ []) (silent ∷ ipv6_only ∷ []) ≡ some (text "[::1]:3000")
unfolding detect_container_port atoi print_int
finds_ipv6 = refl

abbrev web : TunnelEntry
web = record {
  name = text "web";
  tunnel_type = http;
  subdomain = text "web";
  remote_port = pos 0;
  local_addr = text "localhost:3000";
  has_dir = false;
  dir = [];
  tcp_ln = none;
  bytes_in = 10;
  bytes_out = 20;
  requests = 1;
  active_conns = 2;
}

abbrev some_json : Json → Text
some_json j = text "{}"

abbrev cut_request : Meeting
cut_request = record {
  opens = true;
  header_write = complete;
  request_write = cut_at 3;
  read = 7;
  is_response = true;
}

abbrev copied : Copied
copied = record { to_client = text "ping"; back = 4 }

forward_tcp-handle_ws_proxy-round_trip_example :
    (Counted web 7 (round_trip some_json web (text "GET / HTTP/1.1") cut_request)
      × EndsWell
          (header_line some_json web ++ text "GET / HTTP/1.1")
          (round_trip some_json web (text "GET / HTTP/1.1") cut_request))
    × PipeEnds
        (header_line some_json web)
        web
        copied
        (forward_tcp some_json web true complete copied)
    × PipeEnds
        (header_line some_json web ++ text "GET / HTTP/1.1")
        web
        copied
        (handle_ws_proxy some_json web (text "GET / HTTP/1.1") true complete (cut_at 2) true copied)
forward_tcp-handle_ws_proxy-round_trip_example =
    forward_tcp-handle_ws_proxy-round_trip some_json web (text "GET / HTTP/1.1") cut_request true
      complete (cut_at 2) true copied
