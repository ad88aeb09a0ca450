-- ===== src/Proto/Stream.antt =====
-- internal/proto/wsconn.go: a stream of bytes over a WebSocket connection, which carries messages. The
-- messages that ReadMessage will return before it fails are a list; of package bytes the code uses a
-- Reader, here the bytes that are left of it.
pub mod Laws
use nnel.Base.{
  ℕ, zero, suc, Bool, true, false, Option, none, some, List, [], ◌∷◌, ◌++◌, Text, ◌==◌, text_eq,
  if◌then◌else◌, take, drop, length,
}

pub record WsConn : Type 0 where
  -- the message that is being read
  pub reader : Option Text
  pub incoming : List Text
  -- the messages that were written
  pub outgoing : List Text

unfoldable pub new_ws_conn : List Text → WsConn
new_ws_conn incoming = record { reader = none; incoming = incoming; outgoing = [] }

-- bytes.Reader.Read into a buffer of `n` bytes: what is read and what is left, or `none` for io.EOF.
abbrev pub read_reader : ℕ → Text → Option (Text × Text)
read_reader n left = if left == [] then none else some (take n left, drop n left)

-- The loop of Read where the connection has no reader: the bytes, or `none` for the error of
-- ReadMessage, the reader and the messages after it. An empty message is passed over.
unfoldable pub read_message : ℕ → List Text → Option Text × Option Text × List Text
read_message n [] = (none, none, [])
read_message n (msg ∷ msgs) =
    let later = read_message n msgs in
    elim (read_reader n msg) [ none ↦ later | some (read, left) ↦ (some read, some left, msgs) ]

abbrev pub after_read : WsConn → Option Text × Option Text × List Text → Option Text × WsConn
after_read c (read, reader, incoming) = (read, record c { reader = reader; incoming = incoming })

unfoldable pub read : ℕ → WsConn → Option Text × WsConn
unfolding read_message
read n c = after_read c (elim c.reader [
  | none ↦ read_message n c.incoming
  | some held ↦ elim (read_reader n held) [
    | none ↦ read_message n c.incoming
    | some (bytes, left) ↦ (some bytes, some left, c.incoming)
  ]
])

-- Each write is one message. The flag says whether it can be sent; the result is the count of bytes.
unfoldable pub write : Bool → Text → WsConn → Option ℕ × WsConn
write false bytes c = (none, c)
write true bytes c = (some (length bytes), record c { outgoing = c.outgoing ++ bytes ∷ [] })
