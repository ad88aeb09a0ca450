-- ===== src/Server/Streams.antt =====
-- The streams that the server opens to a client for one public connection: yamuxTransport.RoundTrip,
-- countingStream, streamBody and handleWSProxy in internal/server/http_proxy.go, forwardTCP in
-- internal/server/control.go, and marshalLine, writeStreamHdr and pipeCount in internal/server/util.go.
-- The session, the peer and package json enter as what they give.
pub mod Laws
pub mod Interleaving
use nnel.Base.{
  ℕ, ◌+◌, ◌-◌, Bool, true, false, Option, none, some, List, [], ◌∷◌, ◌++◌, Text, if◌then◌else◌,
  length, take,
}
use nnel.Proto.Encoding.{Json}
use nnel.Proto.{StreamHeader, marshal_stream_header}
use nnel.Server.Registry.{TunnelEntry}

-- A write that goes through, or the number of bytes after which it fails.
pub data WriteEnd : Type 0 where
  complete : WriteEnd
  cut_at : ℕ → WriteEnd

abbrev pub sent_of : Text → WriteEnd → Text
sent_of bytes complete = bytes
sent_of bytes (cut_at n) = take n bytes

abbrev pub enter : TunnelEntry → TunnelEntry
enter te = record te { active_conns = te.active_conns + 1 }

-- The deferred decrement.
abbrev pub leave : TunnelEntry → TunnelEntry
leave te = record te { active_conns = te.active_conns - 1 }

-- countingStream.Write of these bytes and countingStream.Read of this number of them.
abbrev pub count_write : Text → TunnelEntry → TunnelEntry
count_write bytes te = record te { bytes_in = te.bytes_in + length bytes }

abbrev pub count_read : ℕ → TunnelEntry → TunnelEntry
count_read n te = record te { bytes_out = te.bytes_out + n }

pub data StreamState : Type 0 where
  not_opened closed : StreamState
  -- it is closed with the body of the response
  held : StreamState

pub data TripResult : Type 0 where
  open_failed header_failed request_failed response_failed responded hijack_failed piped :
      TripResult

-- What a handler leaves: the tunnel, the stream, the bytes that went to the client, and how it ended.
pub record Trip : Type 0 where
  pub te : TunnelEntry
  pub stream : StreamState
  pub sent : Text
  pub result : TripResult

-- What one round trip meets: whether a stream opens, how the two writes end, how many bytes
-- ReadResponse takes from the stream, and whether they are a response.
pub record Meeting : Type 0 where
  pub opens : Bool
  pub header_write : WriteEnd
  pub request_write : WriteEnd
  pub read : ℕ
  pub is_response : Bool

-- streamBody.Close.
abbrev pub close_body : Trip → Trip
close_body t = record t { stream = closed }

abbrev pub read_response : Text → TunnelEntry → Meeting → Trip
read_response sent te m = record {
  te = count_read m.read te;
  stream = if m.is_response then held else closed;
  sent = sent;
  result = if m.is_response then responded else response_failed;
}

abbrev pub write_request : Text → Text → TunnelEntry → Meeting → WriteEnd → Trip
write_request header request te m complete =
    read_response (header ++ request) (count_write request te) m
write_request header request te m (cut_at n) = record {
  te = count_write (take n request) te;
  stream = closed;
  sent = header ++ take n request;
  result = request_failed;
}

abbrev pub write_header : Text → Text → TunnelEntry → Meeting → WriteEnd → Trip
write_header header request te m complete =
    write_request header request (count_write header te) m m.request_write
write_header header request te m (cut_at n) = record {
  te = count_write (take n header) te;
  stream = closed;
  sent = take n header;
  result = header_failed;
}

abbrev pub open_stream : Text → Text → TunnelEntry → Meeting → Trip
open_stream header request te m =
    if m.opens
    then write_header header request te m m.header_write
    else record { te = te; stream = not_opened; sent = []; result = open_failed }

-- What pipe and pipeCount copy: the bytes to the client, and the number of bytes back. Both copies have
-- ended, since the connection and the stream are closed after the first one.
pub record Copied : Type 0 where
  pub to_client : Text
  pub back : ℕ

-- The copies while the connection is counted as active, after the bytes that were sent before.
abbrev pub pipe_count : Text → TunnelEntry → Copied → Trip
pipe_count before te c = record {
  te = leave (count_read c.back (count_write c.to_client (enter te)));
  stream = closed;
  sent = before ++ c.to_client;
  result = piped;
}

abbrev pub stopped : TunnelEntry → StreamState → Text → TripResult → Trip
stopped te stream sent result = record { te = te; stream = stream; sent = sent; result = result }

abbrev pub forward : Text → TunnelEntry → Copied → WriteEnd → Trip
forward header te c complete = pipe_count header te c
forward header te c (cut_at n) = stopped te closed (take n header) header_failed

-- The request of the upgrade, after the header. Its bytes are not counted.
abbrev pub upgrade : Text → Text → TunnelEntry → Bool → Copied → WriteEnd → Trip
upgrade header request te hijacks c complete =
    if hijacks
    then pipe_count (header ++ request) te c
    else stopped te closed (header ++ request) hijack_failed
upgrade header request te hijacks c (cut_at n) =
    stopped te closed (header ++ take n request) request_failed

abbrev pub upgrade_header : Text → Text → TunnelEntry → Bool → Copied → WriteEnd → WriteEnd → Trip
upgrade_header header request te hijacks c complete request_write =
    upgrade header request te hijacks c request_write
upgrade_header header request te hijacks c (cut_at n) request_write =
    stopped te closed (take n header) header_failed

module _ (encode : Json → Text) where
  -- marshalLine of the header.
  unfoldable pub header_line : TunnelEntry → Text
  header_line te =
      encode (marshal_stream_header (record { tunnel_name = te.name; local_addr = te.local_addr }))
      ++ b'\n' ∷ []

  unfoldable pub round_trip : TunnelEntry → Text → Meeting → Trip
  unfolding header_line
  round_trip te request m =
      let entered = enter (record te { requests = te.requests + 1 }) in
      let trip = open_stream (header_line te) request entered m in
      record trip { te = leave trip.te }

  unfoldable pub forward_tcp : TunnelEntry → Bool → WriteEnd → Copied → Trip
  unfolding header_line
  forward_tcp te opens header_write c =
      if opens
      then forward (header_line te) te c header_write
      else stopped te not_opened [] open_failed

  unfoldable pub handle_ws_proxy :
      TunnelEntry → Text → Bool → WriteEnd → WriteEnd → Bool → Copied → Trip
  unfolding header_line
  handle_ws_proxy te request opens header_write request_write hijacks c =
      if opens
      then upgrade_header (header_line te) request te hijacks c header_write request_write
      else stopped te not_opened [] open_failed
