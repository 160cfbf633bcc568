-- ===== src/Api/Ingress/Laws.antt =====
-- Who is connected to what.
use pspxy.Base.{
  ℕ, ◌≡◌, refl, Bool, true, false, Option, none, some, if◌then◌else◌, Text, codes, ◌==◌, Result, ok,
  err, arith, get, ◌⊎◌, inl, inr, get-remove, Bool-cases, eq_iff, any,
}
use pspxy.Strings.{trim_space, is_empty}
use pspxy.Uuid.{Uuid}
use pspxy.Config.{ProxyConfig}
use pspxy.Config.Manager.Edit.{find_proxy}
use pspxy.Proxy.Server.{TcpServer}
use pspxy.Proxy.Manager.{Error as ProxyError, get_tunnel_server}
use pspxy.Proxy.Manager.Sync.{view, view_of, as_view}
use pspxy.ReverseTunnel.Broker.{
  bad_port, already_active, Offer, Broker, RegisterError, close, register_provider,
  abort_provider_registration, channel_active,
}
use pspxy.ReverseTunnel.Broker.Registration.{Registers, register_provider-outcome}
use pspxy.ReverseTunnel.Broker.Removal.{is_closed, channels-abort}
use pspxy.Api.{Handler, fixed, failure}
use pspxy.Api.Proxies.InSync.{IsInSync}
use pspxy.Api.Ingress.{
  Answer, rejected, bridge, consumer, reverse, proxied, tunnel_ingress, legacy, to_channel, nil_id,
  r_tunnel_consumer, registered, Provided, serving, r_tunnel_provider,
}

-- What the configuration says of an id: its proxy if there is one, or else the channel.
abbrev pub expected : Uuid → Bool → Text → Broker → Option ProxyConfig → Answer
expected u up id b (some pc) =
    if pc.enabled
    then bridge pc.remote_address
    else rejected (failure 403 (codes "disabled") (fixed (codes "proxy is disabled")))
expected u up id b none = reverse up b (u.parse id)

module _ (u : Uuid) (up : Bool) (s : Text) (h : Handler) where
  seen :
      (o : Option TcpServer) (c : Option ProxyConfig)
      → get h.proxy_mgr.servers (trim_space s) ≡ o
      → view_of o ≡ as_view c
      → (proxied u up (trim_space s) h (get_tunnel_server (trim_space s) h.proxy_mgr)).0
        ≡ expected u up (trim_space s) h.rt c
  unfolding proxied get_tunnel_server
  seen none none e v = rw e refl
  seen (some ts) none e v = cc
  seen none (some pc) e v = cc
  seen (some ts) (some pc) e v = rw e (ground arith)

  -- Where what runs and the configuration agree, a request for a tunnel whose id, trimmed, is not
  -- empty is bridged to the configured address if that is the id of an enabled proxy, is refused with
  -- 403 if that of a disabled one, and is otherwise decided by the broker's channels.
  pub tunnel_ingress_lem :
      IsInSync h
      → is_empty (trim_space s) ≡ false
      → (tunnel_ingress u up s h).0
        ≡ expected u up (trim_space s) h.rt (find_proxy (trim_space s) h.cfg_mgr.config.proxies)
  unfolding tunnel_ingress
  tunnel_ingress_lem i n = rw n (
      seen _ (find_proxy (trim_space s) h.cfg_mgr.config.proxies) refl
        (unfold view in i.runs (trim_space s)))

  to_channel_lem :
      (id c : Text) (b : Broker) → to_channel up id b ≡ consumer c → channel_active c b ≡ true
  unfolding to_channel
  to_channel_lem id c b e = ground arith

  parsed-consumer :
      (o : Option Text) (c : Text) (b : Broker)
      → reverse up b o ≡ consumer c
      → (legacy up b o ≡ consumer c) × (channel_active c b ≡ true)
  unfolding reverse legacy
  parsed-consumer none c b e = ground arith
  parsed-consumer (some id) c b e = elim (Bool-cases (id == nil_id)) [
    | inl n ↦ ground arith
    | inr n ↦ ground (arith, to_channel_lem id c b)
  ]

  proxied-consumer :
      (r : Result ProxyError TcpServer) (id c : Text)
      → (proxied u up id h r).0 ≡ consumer c
      → (legacy up h.rt (u.parse id) ≡ consumer c) × (channel_active c h.rt ≡ true)
  unfolding proxied
  proxied-consumer (err x) id c e = parsed-consumer (u.parse id) c h.rt e
  proxied-consumer (ok ts) id c e = ground arith

  -- A request that the common entry hands to a channel gets the same channel at the older entry, and
  -- that channel is active.
  pub tunnel_ingress-consumer :
      (id : Text)
      → (tunnel_ingress u up s h).0 ≡ consumer id
      → (r_tunnel_consumer u up s h ≡ consumer id) × (channel_active id h.rt ≡ true)
  unfolding tunnel_ingress r_tunnel_consumer
  tunnel_ingress-consumer id e = elim (Bool-cases (is_empty (trim_space s))) [
    | inl n ↦ ground arith
    | inr n ↦
        proxied-consumer (get_tunnel_server (trim_space s) h.proxy_mgr) (trim_space s) id
          (ground arith)
  ]

-- How the handler of a provider ends: it serves a channel that is new in the broker, or it has
-- closed the WebSocket and the same channels are active as before.
abbrev pub Ends : Uuid → ℕ → Offer → Broker → Provided × Broker → Type 0
Ends u conn offer b (r, b') =
    ((id : Text) × (ref : ℕ) × (r ≡ serving id ref) × Registers id conn ref offer b b')
    ⊎ ((is_closed conn b' ≡ true) × ((j : Text) → channel_active j b' ≡ channel_active j b))

closed-close : (conn : ℕ) (b : Broker) → is_closed conn (close conn b) ≡ true
unfolding is_closed any
closed-close conn b = ground arith

aborted_lem :
    (id : Text) (conn ref : ℕ) (offer : Offer) (b b' : Broker)
    → Registers id conn ref offer b b'
    → (j : Text) → channel_active j (abort_provider_registration id b') ≡ channel_active j b
unfolding channel_active
aborted_lem id conn ref offer b b' r j =
    let was : channel_active id b ≡ false = r.was_inactive in
    let is : channel_active j b' ≡ (if id == j then true else channel_active j b) = r.is_active j in
    rw (channels-abort id b') (ground (arith, get-remove b'.channels id j, eq_iff id j))

registered-Ends :
    (u : Uuid) (fresh : Text) (conn : ℕ) (offer : Offer) (can_reply : Bool) (b : Broker)
    → Ends u conn offer b (registered can_reply conn (register_provider u fresh conn offer b))
registered-Ends u fresh conn offer can_reply b =
    elim (register_provider-outcome u fresh conn offer b) [
      | inl (bad, e) ↦ rw e (failed bad_port)
      | inr (inl (x, q, e)) ↦ rw e (failed x)
      | inr (inr (inl (id, q, on, e))) ↦ rw e (failed already_active)
      | inr (inr (inr (id, ref, q, e, r))) ↦ go can_reply _ _ id ref e r
    ]
  where
    failed : (x : RegisterError) → Ends u conn offer b (registered can_reply conn (err x, b))
    failed x = unfold registered in inr (closed-close conn b, λ j. unfold channel_active in refl)

    go :
        (w : Bool) (o : Result RegisterError (Text × ℕ)) (b' : Broker) (id : Text) (ref : ℕ)
        → o ≡ ok (id, ref)
        → Registers id conn ref offer b b'
        → Ends u conn offer b (registered w conn (o, b'))
    go true o b' id ref e r = unfold registered in rw e (inl (id, ref, refl, r))
    go false o b' id ref e r =
        unfold registered in
        rw e (
          inr (
            closed-close conn (abort_provider_registration id b'),
            λ j. unfold channel_active in aborted_lem id conn ref offer b b' r j,
          ))

-- After a successful upgrade and an offer that can be read, the handler of a provider either serves
-- a channel that was not active before, or has closed the WebSocket, with the same channels active
-- as before: also where the reply could not be written.
pub r_tunnel_provider-Ends :
    (u : Uuid) (fresh : Text) (conn : ℕ) (offer : Offer) (can_reply : Bool) (b : Broker)
    → Ends u conn offer b (r_tunnel_provider u fresh true can_reply conn (some (some offer)) b)
unfolding r_tunnel_provider
r_tunnel_provider-Ends u fresh conn offer can_reply b =
    registered-Ends u fresh conn offer can_reply b
