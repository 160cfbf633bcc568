-- ===== src/Api/Ingress.antt =====
-- internal/api/handler.go: `TunnelIngress`, `RTunnelConsumer`, `RTunnelProvider` and `ServeStatic`. A
-- tunnel handler is modelled up to where it hands the connection over: to the bridge of
-- `HandleUpgrade`, or to `AttachConsumer`, which is ReverseTunnel/Session. Whether the upgrade to a
-- WebSocket succeeds, whether a write does, and the first message of a provider are arguments.
pub mod Laws
use pspxy.Base.{
  ℕ, Bool, true, false, not, ◌&&◌, ◌||◌, List, [], ◌∷◌, Option, none, some, if◌then◌else◌, Text,
  codes, ◌==◌, Result, ok, err, length, take, leb,
}
use pspxy.Strings.{trim_space, is_empty}
use pspxy.Uuid.{Uuid}
use pspxy.Proxy.Server.{TcpServer, is_running, incr_tunnel, decr_tunnel}
use pspxy.Proxy.Manager.{Error as ProxyError, get_tunnel_server, set_server}
use pspxy.ReverseTunnel.Broker.{
  Offer, Broker, RegisterError, close, register_provider, abort_provider_registration,
  channel_active,
}
use pspxy.Api.{Handler, Detail, fixed, Response, failure}

-- What becomes of a request for a tunnel: a response, nothing more after a failed upgrade, a bridge
-- to an address, or the consumer of a channel.
pub data Answer : Type 0 where
  rejected : Response → Answer
  not_upgraded : Answer
  bridge : Text → Answer
  consumer : Text → Answer

-- `uuid.Nil`
abbrev pub nil_id : Text
nil_id = 0 ∷ 0 ∷ 0 ∷ 0 ∷ 0 ∷ 0 ∷ 0 ∷ 0 ∷ 0 ∷ 0 ∷ 0 ∷ 0 ∷ 0 ∷ 0 ∷ 0 ∷ 0 ∷ []

abbrev offline : Answer
offline =
    rejected
      (failure 404 (codes "not_found") (fixed (codes "tunnel not registered or provider offline")))

-- From `ChannelActive` on, the same in both handlers.
unfoldable pub to_channel : Bool → Text → Broker → Answer
to_channel can_upgrade id b =
    if not (channel_active id b) then offline else if can_upgrade then consumer id else not_upgraded

pub reverse : Bool → Broker → Option Text → Answer
unfolding to_channel
reverse can_upgrade b none =
    rejected (failure 404 (codes "not_found") (fixed (codes "tunnel not registered")))
reverse can_upgrade b (some id) =
    if id == nil_id
    then rejected (failure 404 (codes "not_found") (fixed (codes "tunnel not registered")))
    else to_channel can_upgrade id b

pub proxied : Uuid → Bool → Text → Handler → Result ProxyError TcpServer → Answer × Handler
unfolding reverse
proxied u can_upgrade id h (err e) = (reverse can_upgrade h.rt (u.parse id), h)
proxied u can_upgrade id h (ok ts) =
    if not ts.cfg.enabled
    then (rejected (failure 403 (codes "disabled") (fixed (codes "proxy is disabled"))), h)
    else if not (is_running ts)
    then (
      rejected (failure 503 (codes "unavailable") (fixed (codes "proxy is not accepting tunnels"))),
      h,
    )
    else (
      bridge ts.cfg.remote_address,
      record h { proxy_mgr = set_server id (incr_tunnel ts) h.proxy_mgr },
    )

unfoldable pub tunnel_ingress : Uuid → Bool → Text → Handler → Answer × Handler
unfolding proxied
tunnel_ingress u can_upgrade tunnel_id h =
    let id = trim_space tunnel_id in
    if is_empty id
    then (rejected (failure 400 (codes "bad_request") (fixed (codes "missing tunnel id"))), h)
    else proxied u can_upgrade id h (get_tunnel_server id h.proxy_mgr)

pub legacy : Bool → Broker → Option Text → Answer
unfolding to_channel
legacy can_upgrade b none =
    rejected (failure 400 (codes "bad_request") (fixed (codes "invalid channel_id")))
legacy can_upgrade b (some id) = to_channel can_upgrade id b

unfoldable pub r_tunnel_consumer : Uuid → Bool → Text → Handler → Answer
unfolding legacy
r_tunnel_consumer u can_upgrade channel_id h =
    legacy can_upgrade h.rt (u.parse (trim_space channel_id))

-- How `RTunnelProvider` ends; `serving` starts the read loop on the pointer.
pub data Provided : Type 0 where
  no_upgrade no_message bad_offer aborted : Provided
  refused : RegisterError → Provided
  serving : Text → ℕ → Provided

pub registered : Bool → ℕ → Result RegisterError (Text × ℕ) × Broker → Provided × Broker
registered can_reply conn (err e, b) = (refused e, close conn b)
registered true conn (ok (id, ref), b) = (serving id ref, b)
registered false conn (ok (id, ref), b) = (aborted, close conn (abort_provider_registration id b))

-- `message` is what `ReadMessage` returns, and within it what `json.Unmarshal` makes of the offer.
-- The error reply's own outcome is ignored, as in the source.
unfoldable pub r_tunnel_provider :
    Uuid → Text → Bool → Bool → ℕ → Option (Option Offer) → Broker → Provided × Broker
unfolding registered
r_tunnel_provider u fresh false can_reply conn message b = (no_upgrade, b)
r_tunnel_provider u fresh true can_reply conn none b = (no_message, close conn b)
r_tunnel_provider u fresh true can_reply conn (some none) b = (bad_offer, close conn b)
r_tunnel_provider u fresh true can_reply conn (some (some offer)) b =
    registered can_reply conn (register_provider u fresh conn offer b)

-- Whether `ServeStatic` answers 404; it serves the embedded files otherwise.
unfoldable pub is_api_path : Text → Bool
is_api_path path = leb 4 (length path) && (take 4 path == codes "/api")
