-- ===== src/Client/Streams.antt =====
-- internal/client/proxy.go, handleDataStream: what becomes of a stream that the server opens. Package
-- json and the network enter as what they give.
use nnel.Base.{
  ℕ, suc, Option, none, some, List, [], ◌∷◌, ◌++◌, Text, text, text_eq, ◌==◌, if◌then◌else◌, length,
  take, drop, index, print_nat, Result, ok, err,
}
use nnel.Config.{ClientConfig, TunnelConfig}
use nnel.Proto.Encoding.{Json}
use nnel.Proto.{StreamHeader, unmarshal_stream_header}

-- bufio's ReadBytes of one line, and the bytes that stay in the reader; the end of the stream is an
-- error.
unfoldable pub read_line : Text → Option (Text × Text)
read_line stream = elim (index b'\n' stream) [
  | none ↦ none
  | some i ↦ some (take (suc i) stream, drop (suc i) stream)
]

-- The address and the type of the tunnel: those of the first tunnel with the name, if there is one.
unfoldable pub find_local : Text → Text → List TunnelConfig → Text × Text
find_local local_addr name [] = (local_addr, text "http")
find_local local_addr name (t ∷ ts) =
    let later = find_local local_addr name ts in
    if t.name == name then (if local_addr == [] then t.local else local_addr, t.type) else later

unfoldable pub bad_gateway : Text → Text
bad_gateway msg =
    text "HTTP/1.1 502 Bad Gateway\r\nContent-Type: text/plain\r\nContent-Length: "
    ++ (print_nat (length msg) ++ (text "\r\nConnection: close\r\n\r\n" ++ msg))

-- What the client does before it closes the stream.
pub data StreamEnd : Type 0 where
  nothing : StreamEnd
  -- what is written to the stream
  refused : Text → StreamEnd
  -- the address of the local service, and the bytes that were copied to it when the first of the two
  -- copies ended and both connections were closed
  proxied : Text → Text → StreamEnd

-- Which of the two copies ends first: the one to the local service, at the end of the stream; or the
-- one from it, or either with an error, when so many bytes have been copied to the service.
pub data Copying : Type 0 where
  whole : Copying
  cut_off : (n : ℕ) → Copying

abbrev pub copied : Copying → Text → Text
copied whole rest = rest
copied (cut_off n) rest = take n rest

abbrev pub dialled : Text → Text → Text → Result Text (Unit {0}) → StreamEnd
dialled addr tunnel_type rest (ok _) = proxied addr rest
dialled addr tunnel_type rest (err problem) =
    if tunnel_type == text "tcp"
    then nothing
    else refused (bad_gateway (text "service unavailable: " ++ problem))

module _ (dial : Text → Result Text (Unit {0})) (copying : Copying) where
  unfoldable pub serve_header : ClientConfig → Text → StreamHeader → StreamEnd
  unfolding find_local bad_gateway
  serve_header cfg rest hdr =
      let (addr, tunnel_type) = find_local hdr.local_addr hdr.tunnel_name cfg.tunnels in
      if addr == [] then nothing else dialled addr tunnel_type (copied copying rest) (dial addr)

module _ (decode : Text → Option Json) (dial : Text → Result Text (Unit {0}))
    (copying : Copying) where
  unfoldable pub handle_data_stream : ClientConfig → Text → StreamEnd
  unfolding read_line serve_header
  handle_data_stream cfg stream = elim (read_line stream) [
    | none ↦ nothing
    | some (line, rest) ↦ elim (decode line) [
      | none ↦ nothing
      | some json ↦ elim (unmarshal_stream_header json) [
        | none ↦ nothing
        | some hdr ↦ serve_header dial copying cfg rest hdr
      ]
    ]
  ]
