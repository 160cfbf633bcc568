-- ===== src/ClientTunnel/Stream.antt =====
-- internal/clienttunnel/tunnel.go: `wsConnWrapper.Read`, which reads the messages of a WebSocket as
-- one stream of bytes, and `byteReader`. The messages that are still to come are a list; at its end
-- `ReadMessage` gives its error.
pub mod Reassembly
use pspxy.Base.{
  ℕ, Bool, List, [], ◌∷◌, Option, none, some, if◌then◌else◌, Text, leb, length, take, drop, ◌+◌,
}

pub record ByteReader : Type 0 where
  pub data_bytes : Text
  pub pos : ℕ

pub record WsConnWrapper : Type 0 where
  pub reader : Option ByteReader
  pub incoming : List Text

-- `none` is io.EOF; the argument is the size of the buffer.
unfoldable pub byte_read : ℕ → ByteReader → Option Text × ByteReader
byte_read size r =
    if leb (length r.data_bytes) r.pos
    then (none, r)
    else (let n = take size (drop r.pos r.data_bytes) in
        (some n, record r { pos = r.pos + length n }))

-- What a round with a reader gives: the bytes read, or at its end what the next rounds give.
took :
    List Text → Option Text × WsConnWrapper → Option Text × ByteReader → Option Text × WsConnWrapper
took ms rest (none, r) = rest
took ms rest (some b, r) = (some b, record { reader = some r; incoming = ms })

-- The rounds of the loop from one without a reader on.
read_next : ℕ → List Text → Option Text × WsConnWrapper
unfolding took byte_read
read_next size [] = (none, record { reader = none; incoming = [] })
read_next size (m ∷ ms) =
    let rest = read_next size ms in
    took ms rest (byte_read size (record { data_bytes = m; pos = 0 }))

read_from : ℕ → List Text → Option ByteReader → Option Text × WsConnWrapper
unfolding read_next took byte_read
read_from size ms none = read_next size ms
read_from size ms (some r) = took ms (read_next size ms) (byte_read size r)

-- The bytes read, or `none` for the error of `ReadMessage`.
unfoldable pub read : ℕ → WsConnWrapper → Option Text × WsConnWrapper
unfolding read_from
read size w = read_from size w.incoming w.reader
