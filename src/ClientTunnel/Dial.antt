-- ===== src/ClientTunnel/Dial.antt =====
-- internal/clienttunnel/tunnel.go: `DialWebSocketPath`, the address it signs and its attempts.
-- `url.Parse` is a parameter, with an address as its host part, its path and its query, and the
-- answer of the dialer to each attempt is one too. `Sleep` is the count of the seconds waited.
pub mod Retries
pub mod Signed
use pspxy.Base.{
  ◌≡◌, ℕ, zero, suc, ◌+◌, ◌^◌, ℤ, Bool, true, false, not, [], ◌∷◌, ◌++◌, Option, none, some,
  if◌then◌else◌, ltb, Text, codes, Dict, put, Result, ok, err,
}
use pspxy.Strings.{trim_space, is_empty, to_lower, has_prefix}
use pspxy.Strings.Decimal.{format_int}
use pspxy.Api.Access.{sign_access_payload}
use pspxy.ClientTunnel.Tunnel.{Config, normalize_server_url_for_ws}

pub record Url : Type 0 where
  pub origin : Text
  pub path : Text
  pub query : Dict Text

pub data DialError : Type 0 where
  parse_failed : DialError
  -- with the answer's status, if there is an answer
  handshake_refused : Option Text → DialError
  -- with the error of the last attempt
  gave_up : Text → DialError

-- What the dialer answers to an attempt: a connection, `ErrBadHandshake`, or another error.
pub data Attempt : Type 0 where
  connected : ℕ → Attempt
  bad_handshake : Option Text → Attempt
  failed : Text → Attempt

unfoldable pub absolute_path : Text → Text
absolute_path path = if has_prefix path (codes "/") then path else b'/' ∷ path

-- The address that is dialled at the time `now`.
unfoldable pub signed_url : (Text → Text) → ℤ → Text → Text → Url → Url
unfolding absolute_path
signed_url sha1_hex now path api_key u0 =
    let u = record u0 { path = absolute_path path } in
    let ak = trim_space api_key in
    let ts = format_int now in
    let sig = to_lower (sign_access_payload sha1_hex ak ts ak) in
    if is_empty ak then u else record u {
      query = put (put (put u.query (codes "psp_ak") ak) (codes "psp_ts") ts) (codes "psp_sig") sig;
    }

-- The seconds that are waited after the attempt with this number.
unfoldable pub wait_after : ℕ → ℕ
wait_after i = let w = 2 ^ i in if ltb 60 w then 60 else w

unfoldable pub last_error : Text → Attempt → Text
last_error e (connected c) = e
last_error e (bad_handshake s) = e
last_error e (failed e') = e'

unfoldable pub decided : Attempt → ℕ → Result DialError ℕ × ℕ → Result DialError ℕ × ℕ
decided (connected c) waited rest = (ok c, waited)
decided (bad_handshake s) waited rest = (err (handshake_refused s), waited)
decided (failed e) waited rest = rest

-- The loop with `n` attempts left, of which the next has the number `i`: its result and the seconds
-- that it waited.
unfoldable pub dial_loop : (ℕ → Attempt) → ℕ → ℕ → Text → ℕ → Result DialError ℕ × ℕ
unfolding decided last_error
dial_loop dial zero i last waited = (err (gave_up last), waited)
dial_loop dial (suc n) i last waited =
    let rest = dial_loop dial n (suc i) (last_error last (dial i)) (waited + wait_after i) in
    decided (dial i) waited rest

abbrev pub attempts : ℕ
attempts = 10

-- The second argument is what `url.Parse` answers, the third one the dialer's answers at an address.
unfoldable pub dial_web_socket_path :
    (Text → Text)
    → (Text → Option Url)
    → (Url → ℕ → Attempt)
    → ℤ
    → Text
    → Text
    → Text
    → Result DialError ℕ × ℕ
unfolding signed_url dial_loop
dial_web_socket_path sha1_hex parse_url dial now server_url path api_key =
    parsed (parse_url (normalize_server_url_for_ws server_url))
  where
    parsed : Option Url → Result DialError ℕ × ℕ
    parsed none = (err parse_failed, 0)
    parsed (some u) = dial_loop (dial (signed_url sha1_hex now path api_key u)) attempts 0 [] 0

-- `dialWebSocket`: the entry of a proxy.
unfoldable pub dial_web_socket :
    (Text → Text) → (Text → Option Url) → (Url → ℕ → Attempt) → ℤ → Config → Result DialError ℕ × ℕ
unfolding dial_web_socket_path
dial_web_socket sha1_hex parse_url dial now cfg =
    dial_web_socket_path sha1_hex parse_url dial now cfg.server_url
      (codes "/ws/" ++ trim_space cfg.proxy_id) cfg.api_key
