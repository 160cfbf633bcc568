-- ===== src/ClientTunnel/Reverse/Handshake.antt =====
-- internal/clienttunnel/reverse.go: `HandshakeReverseProvider`. The dial, the write and the server's
-- answer are arguments.
use pspxy.Base.{ℤ, Bool, not, Option, none, some, if◌then◌else◌, ℕ, Text, Result, ok, err}
use pspxy.Strings.{trim_space, is_empty}
use pspxy.ReverseTunnel.Broker.{Offer}
use pspxy.ClientTunnel.Reverse.{localhost}

pub record Response : Type 0 where
  pub is_ok : Bool
  pub channel_id : Text
  pub error_text : Text

pub data HandshakeError : Type 0 where
  write_failed read_failed decode_failed register_failed : HandshakeError
  dial_failed : Text → HandshakeError
  refused : Text → HandshakeError

-- The first message; an absent channel is an empty one.
unfoldable pub offer_of : Text → ℤ → Text → Offer
offer_of local_host local_port reuse = record {
  local_host = if is_empty local_host then localhost else local_host;
  local_port = local_port;
  channel_id = trim_space reuse;
}

unfoldable pub answer_of : ℕ → Response → Result HandshakeError (Text × ℕ)
answer_of ws resp =
    if not resp.is_ok
    then (if not (is_empty resp.error_text)
        then err (refused resp.error_text)
        else err register_failed)
    else ok (resp.channel_id, ws)

read_answer : ℕ → Option (Option Response) → Result HandshakeError (Text × ℕ)
unfolding answer_of
read_answer ws none = err read_failed
read_answer ws (some none) = err decode_failed
read_answer ws (some (some resp)) = answer_of ws resp

-- The server answers the offer, by a function of it: nothing if the read fails, and nothing within
-- if the answer is no JSON.
unfoldable pub handshake_reverse_provider :
    Result Text ℕ
    → Bool
    → (Offer → Option (Option Response))
    → Text
    → ℤ
    → Text
    → Result HandshakeError (Text × ℕ)
unfolding read_answer offer_of
handshake_reverse_provider (err e) can_write server host port reuse = err (dial_failed e)
handshake_reverse_provider (ok ws) can_write server host port reuse =
    if not can_write then err write_failed else read_answer ws (server (offer_of host port reuse))
