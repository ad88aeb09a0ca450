-- ===== src/Server/Tests/Requests.antt =====
-- The theorems about requests, heartbeats and the connections of a tunnel at concrete inputs.
use nnel.Base.{◌≡◌, none, [], ◌∷◌, text, List, arith}
use nnel.Server.Admin.Paths.{get}
use nnel.Server.Serving.{Request}
use nnel.Server.Control.Watching.{Event, tick, received, watch, started_watch, watch-Prompt}
use nnel.Server.Streams.{enter, leave, count_write}
use nnel.Server.Streams.Interleaving.{Traffic}
use nnel.Server.Tests.{web_tunnel, web_host}

abbrev dashboard : Request
dashboard = record {
  method = get;
  path = text "/_2nnel/metrics";
  host = web_host;
  upgrade = [];
  credentials = record { query_token = text "key"; basic_password = none; authorization = [] };
}

-- A client that is slow, but answers; the ticks come up to one second late.
abbrev slow : List Event
slow =
    tick 30100000000
    ∷ tick 60000000000
    ∷ received 89000000000
    ∷ tick 90900000000
    ∷ tick 120000000000
    ∷ received 149000000000
    ∷ tick 150200000000
    ∷ []

watch-Prompt_example :
    ((watch started_watch slow).closed_at ≡ none) × ((watch started_watch slow).beats ≡ 5)
watch-Prompt_example =
    watch-Prompt 1000000000 59000000000 (omega arith) slow (omega arith) (omega arith)

-- Two connections of a tunnel; a copy of two bytes has ended, and its connection has left.
abbrev two_busy : Traffic
two_busy = record {
  te = leave (count_write (text "ab") (enter (enter web_tunnel)));
  connected = 1;
  copies = 3;
  to_client = 2;
  back = 0;
}
