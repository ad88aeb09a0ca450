-- ===== src/Server/Streams/Laws.antt =====
-- What a public connection leaves behind: the counters of its tunnel and its stream.
use nnel.Base.{
  ℕ, ◌+◌, ◌≡◌, refl, Bool, true, false, Text, [], ◌++◌, length, take, length-append, arith,
}
use nnel.Proto.Encoding.{Json}
use nnel.Server.Registry.{TunnelEntry}
use nnel.Server.Streams.{
  WriteEnd, complete, cut_at, not_opened, closed, held, TripResult, open_failed, response_failed,
  responded, piped, Trip, Meeting, Copied, header_line, round_trip, forward_tcp, handle_ws_proxy,
}

-- The stream is closed if there is one, except while the body of a response is read; what was sent is
-- then the header and the request.
abbrev pub EndsWell : Text → Trip → Type 0
EndsWell whole t = elim t.result [
  | open_failed ↦ (t.stream ≡ not_opened) × (t.sent ≡ [])
  | responded ↦ (t.stream ≡ held) × (t.sent ≡ whole)
  | _ ↦ t.stream ≡ closed
]

pub EndsWell-responded :
    (whole : Text) (t : Trip) → t.result ≡ responded → EndsWell whole t → t.sent ≡ whole
EndsWell-responded whole t h ends =
    let e : (t.stream ≡ held) × (t.sent ≡ whole) = rw h at ends in e.1

-- How many bytes were read: none before the response.
abbrev pub read_of : TripResult → ℕ → ℕ
read_of response_failed read = read
read_of responded read = read
read_of other read = 0

-- The counters of a request: one request more, as many active connections as before, the bytes that
-- were sent and the bytes that were read.
abbrev pub Counted : TunnelEntry → ℕ → Trip → Type 0
Counted te read t =
    (t.te.active_conns ≡ te.active_conns)
    × (t.te.requests ≡ te.requests + 1)
    × (t.te.bytes_in ≡ te.bytes_in + length t.sent)
    × (t.te.bytes_out ≡ te.bytes_out + read_of t.result read)

abbrev meeting : Bool → WriteEnd → WriteEnd → ℕ → Bool → Meeting
meeting opens header_write request_write read is_response = record {
  opens = opens;
  header_write = header_write;
  request_write = request_write;
  read = read;
  is_response = is_response;
}

-- A connection whose bytes are copied: it is counted while it lasts, its stream is closed at the end,
-- and only copied bytes are counted; where the copies are not reached, the tunnel is as before.
abbrev pub PipeEnds : Text → TunnelEntry → Copied → Trip → Type 0
PipeEnds before te c t = elim t.result [
  | piped ↦
      (t.stream ≡ closed)
      × (t.sent ≡ before ++ c.to_client)
      × (t.te.active_conns ≡ te.active_conns)
      × (t.te.requests ≡ te.requests)
      × (t.te.bytes_in ≡ te.bytes_in + length c.to_client)
      × (t.te.bytes_out ≡ te.bytes_out + c.back)
  | open_failed ↦ (t.stream ≡ not_opened) × (t.te ≡ te)
  | _ ↦ (t.stream ≡ closed) × (t.te ≡ te)
]

module _ (encode : Json → Text) (te : TunnelEntry) (request : Text) where
  round_trip_ends :
      (opens : Bool) (hw rw_ : WriteEnd) (read : ℕ) (is_response : Bool)
      → EndsWell
          (header_line encode te ++ request)
          (round_trip encode te request (meeting opens hw rw_ read is_response))
  unfolding round_trip
  round_trip_ends false hw rw_ read is_response = (refl, refl)
  round_trip_ends true (cut_at n) rw_ read is_response = refl
  round_trip_ends true complete (cut_at n) read is_response = refl
  round_trip_ends true complete complete read false = refl
  round_trip_ends true complete complete read true = (refl, refl)

  round_trip_counts :
      (opens : Bool) (hw rw_ : WriteEnd) (read : ℕ) (is_response : Bool)
      → Counted te read (round_trip encode te request (meeting opens hw rw_ read is_response))
  unfolding round_trip
  round_trip_counts false hw rw_ read is_response = (omega arith, refl, omega arith, omega arith)
  round_trip_counts true (cut_at n) rw_ read is_response = (omega arith, refl, refl, omega arith)
  round_trip_counts true complete (cut_at n) read is_response = (
    omega arith,
    refl,
    omega (arith, length-append (header_line encode te) (take n request)),
    omega arith,
  )
  round_trip_counts true complete complete read true =
      (omega arith, refl, omega (arith, length-append (header_line encode te) request), refl)
  round_trip_counts true complete complete read false =
      (omega arith, refl, omega (arith, length-append (header_line encode te) request), refl)

  pub round_trip-Counted :
      (m : Meeting)
      → Counted te m.read (round_trip encode te request m)
        × EndsWell (header_line encode te ++ request) (round_trip encode te request m)
  round_trip-Counted m = (
    round_trip_counts m.opens m.header_write m.request_write m.read m.is_response,
    round_trip_ends m.opens m.header_write m.request_write m.read m.is_response,
  )

  forward_tcp_ends :
      (opens : Bool) (header_write : WriteEnd) (c : Copied)
      → PipeEnds (header_line encode te) te c (forward_tcp encode te opens header_write c)
  unfolding forward_tcp
  forward_tcp_ends false header_write c = (refl, refl)
  forward_tcp_ends true (cut_at n) c = (refl, refl)
  forward_tcp_ends true complete c = (refl, refl, omega arith, refl, refl, refl)

  handle_ws_proxy_ends :
      (opens : Bool) (header_write request_write : WriteEnd) (hijacks : Bool) (c : Copied)
      → PipeEnds
          (header_line encode te ++ request)
          te
          c
          (handle_ws_proxy encode te request opens header_write request_write hijacks c)
  unfolding handle_ws_proxy
  handle_ws_proxy_ends false hw rw_ hijacks c = (refl, refl)
  handle_ws_proxy_ends true (cut_at n) rw_ hijacks c = (refl, refl)
  handle_ws_proxy_ends true complete (cut_at n) hijacks c = (refl, refl)
  handle_ws_proxy_ends true complete complete false c = (refl, refl)
  handle_ws_proxy_ends true complete complete true c = (refl, refl, omega arith, refl, refl, refl)

  -- However a round trip ends, its tunnel has counted one request more, the bytes that went to the
  -- client and the bytes that came back; no stream is left open, except with a response, before which
  -- the header and the whole request were sent. However a TCP connection or a WebSocket ends, its
  -- stream is closed; if its bytes were copied they are counted, and the client got the header, the
  -- request of the upgrade if there is one, and then what the public side sent. The tunnel has as
  -- many active connections after each of the three as before it.
  pub forward_tcp-handle_ws_proxy-round_trip :
      (m : Meeting) (opens : Bool) (header_write request_write : WriteEnd) (hijacks : Bool)
      (c : Copied)
      → (Counted te m.read (round_trip encode te request m)
          × EndsWell (header_line encode te ++ request) (round_trip encode te request m))
        × PipeEnds (header_line encode te) te c (forward_tcp encode te opens header_write c)
        × PipeEnds
            (header_line encode te ++ request)
            te
            c
            (handle_ws_proxy encode te request opens header_write request_write hijacks c)
  forward_tcp-handle_ws_proxy-round_trip m opens header_write request_write hijacks c = (
    round_trip-Counted m,
    forward_tcp_ends opens header_write c,
    handle_ws_proxy_ends opens header_write request_write hijacks c,
  )
