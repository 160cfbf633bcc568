-- ===== src/ReverseTunnel/Broker.antt =====
-- internal/reversetunnel/broker.go. A WebSocket is a number. The broker's map holds pointers to
-- channels, which the goroutines go on using when the map has dropped them: channels stand in the
-- store `objects` and a pointer is an index. `AttachConsumer` waits for its answer, so it is two
-- steps, `attach_begin` and `attach_end` (in Session), between which anything may happen; its Go channel of size
-- one is a cell of `mailboxes`. Every other function is one step. Whether a write succeeds is an
-- argument; `closed` and `sent` record what was closed and what was written, the latest first.
pub mod Registration
pub mod Removal
use pspxy.Base.{
  ℕ, ◌≡◌, ℤ, pos, ltb_ℤ, Bool, true, false, not, ◌&&◌, ◌||◌, List, [], ◌∷◌, ◌++◌, Option, none,
  some, if◌then◌else◌, Text, String, codes, ◌==◌, is_some, Dict, get, put, remove, values, size,
  Result, ok, err, length, get_elem?, modify,
}
use pspxy.Strings.{trim_space, is_empty}
use pspxy.Uuid.{Uuid}
use pspxy.ReverseTunnel.Frame.{prepend_session_id, parse_prefixed_message}

pub record Offer : Type 0 where
  pub local_host : Text
  pub local_port : ℤ
  pub channel_id : Text

-- `attachedMsg`
pub record AttachedMsg : Type 0 where
  pub cmd : Text
  pub sid : Text
  pub is_ok : Bool
  pub error_text : Text

pub data AttachError : Type 0 where
  channel_not_found provider_disconnected attach_failed attach_timeout write_failed : AttachError
  refused : Text → AttachError

pub data RegisterError : Type 0 where
  bad_port invalid_channel_id already_active : RegisterError

-- `attachResult`: nil, or the error
abbrev pub AttachResult : Type 0
AttachResult = Option AttachError

pub record Channel : Type 0 where
  pub id : Text
  pub agent : ℕ
  pub offer : Offer
  -- from session ids to consumers
  pub sessions : Dict ℕ
  -- from session ids to mailboxes
  pub ack_wait : Dict ℕ

-- The messages that the broker writes; a session id in JSON is its text.
pub data Message : Type 0 where
  attach detach : Text → Message
  binary : Text → Message

-- What `ReadMessage` returns: an error, a text message with what `json.Unmarshal` makes of it, a
-- binary message, or another kind.
pub data Incoming : Type 0 where
  failed other_message : Incoming
  text_message : Option AttachedMsg → Incoming
  binary_message : Text → Incoming

pub record Broker : Type 0 where
  pub channels : Dict ℕ
  pub objects : List Channel
  pub mailboxes : List (Option AttachResult)
  pub closed : List ℕ
  pub sent : List (ℕ × Message)

abbrev pub new_broker : Broker
new_broker = record { channels = []; objects = []; mailboxes = []; closed = []; sent = [] }

abbrev pub default_host : Text
default_host = codes "127.0.0.1"

abbrev pub close : ℕ → Broker → Broker
close conn b = record b { closed = conn ∷ b.closed }

abbrev pub write : Bool → ℕ → Message → Broker → Broker
write true conn msg b = record b { sent = (conn, msg) ∷ b.sent }
write false conn msg b = b

abbrev pub update : ℕ → (Channel → Channel) → Broker → Broker
update ref f b = record b { objects = modify b.objects ref f }

unfoldable pub port_in_range : ℤ → Bool
port_in_range p = not (ltb_ℤ p (pos 1) || ltb_ℤ (pos 65535) p)

-- The channel id of an offer: what the client asks for, or a fresh one.
requested_id : Text → Option Text → Result RegisterError Text
requested_id fresh none = err invalid_channel_id
requested_id fresh (some id) = ok id

unfoldable pub channel_id_of : Uuid → Text → Text → Result RegisterError Text
unfolding requested_id
channel_id_of u fresh asked =
    let s = trim_space asked in if is_empty s then ok fresh else requested_id fresh (u.parse s)

-- Under the lock.
register_id :
    ℕ → Offer → Broker → Result RegisterError Text → Result RegisterError (Text × ℕ) × Broker
register_id agent offer b (err e) = (err e, b)
register_id agent offer b (ok id) =
    let ref = length b.objects in
    let ch : Channel = record {
      id = id;
      agent = agent;
      offer = offer;
      sessions = [];
      ack_wait = [];
    } in
    if is_some (get b.channels id) then (err already_active, b) else (
      ok (id, ref),
      record b { channels = put b.channels id ref; objects = b.objects ++ ch ∷ [] },
    )

-- The result holds the channel's id and the pointer that `start` closes over.
unfoldable pub register_provider :
    Uuid → Text → ℕ → Offer → Broker → Result RegisterError (Text × ℕ) × Broker
unfolding register_id
register_provider u fresh agent offer b =
    if not (port_in_range offer.local_port)
    then (err bad_port, b)
    else (let host = if is_empty offer.local_host then default_host else offer.local_host in
        register_id agent (record offer { local_host = host }) b
          (channel_id_of u fresh offer.channel_id))

abort_found : Option Channel → Broker → Broker
abort_found none b = b
abort_found (some ch) b = close ch.agent b

abbrev pub channel_at : Broker → Option ℕ → Option Channel
channel_at b none = none
channel_at b (some ref) = get_elem? b.objects ref

unfoldable pub abort_provider_registration : Text → Broker → Broker
unfolding abort_found
abort_provider_registration id b =
    abort_found (channel_at b (get b.channels id)) (record b { channels = remove b.channels id })

-- `select { case wc <- r: default: }`: a full mailbox keeps what it has.
unfoldable pub offer_reply : AttachResult → Option AttachResult → Option AttachResult
offer_reply r none = some r
offer_reply r (some s) = some s

unfoldable pub send_reply : ℕ → AttachResult → Broker → Broker
unfolding offer_reply
send_reply k r b = record b { mailboxes = modify b.mailboxes k (offer_reply r) }

unfoldable pub close_all : List ℕ → Broker → Broker
close_all [] b = b
close_all (c ∷ cs) b = close_all cs (close c b)

unfoldable pub send_all : List ℕ → AttachResult → Broker → Broker
unfolding send_reply
send_all [] r b = b
send_all (k ∷ ks) r b = send_all ks r (send_reply k r b)

remove_found : Option ℕ → Option Channel → Broker → Broker
unfolding close_all send_all
remove_found (some ref) (some ch) b =
    send_all (values ch.ack_wait) (some provider_disconnected) (
      close_all (values ch.sessions)
        (update ref (λ c. record c { sessions = []; ack_wait = [] }) b))
remove_found _ _ b = b

unfoldable pub remove_channel : Text → Broker → Broker
unfolding remove_found
remove_channel id b =
    let found = get b.channels id in
    remove_found found (channel_at b found) (record b { channels = remove b.channels id })

unfoldable pub channel_active : Text → Broker → Bool
channel_active id b = is_some (get b.channels id)

unfoldable pub channel_count : Broker → ℕ
channel_count b = size b.channels
