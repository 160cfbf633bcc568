-- ===== src/ReverseTunnel/Broker/Removal.antt =====
-- What is left when a provider's loop ends: `removeChannel`, and the reclaim of the id.
use pspxy.Base.{
  ℕ, ◌≡◌, refl, ◌≢◌, ◌∙◌, Bool, true, false, ◌||◌, List, [], ◌∷◌, Option, none, some, if◌then◌else◌,
  Text, arith, Dict, get, remove, values, ok, length, get_elem?, get_elem?-modify, get-put,
  get-remove, eq_refl, any, eqb, eq_iff, map_option, Option-cases, inl, inr, ◌⊎◌,
}
use pspxy.Uuid.{Uuid, UuidLaws}
use pspxy.ReverseTunnel.Broker.{
  Offer, AttachResult, provider_disconnected, Channel, Broker, close, update, channel_at,
  offer_reply, send_reply, close_all, send_all, remove_found, remove_channel, channel_active,
  channel_id_of, register_provider, port_in_range, abort_found, abort_provider_registration,
}

-- The broker closed the WebSocket.
unfoldable pub is_closed : ℕ → Broker → Bool
is_closed conn b = any (eqb conn) b.closed

pub close_all_frame :
    (cs : List ℕ) (b : Broker)
    → ((close_all cs b).channels ≡ b.channels)
      × ((close_all cs b).objects ≡ b.objects)
      × ((close_all cs b).mailboxes ≡ b.mailboxes)
unfolding close_all
close_all_frame [] b = (refl, refl, refl)
close_all_frame (c ∷ cs) b = close_all_frame cs (close c b)

is_closed-close_all :
    (conn : ℕ) (cs : List ℕ) (b : Broker)
    → is_closed conn (close_all cs b) ≡ (any (eqb conn) cs || is_closed conn b)
unfolding is_closed close_all any
is_closed-close_all conn [] b = refl
is_closed-close_all conn (c ∷ cs) b = ground (arith, is_closed-close_all conn cs (close c b))

-- An entry of a map is among its values.
pub any-values : (d : Dict ℕ) (k : Text) (v : ℕ) → get d k ≡ some v → any (eqb v) (values d) ≡ true
unfolding get values any
any-values [] k v h = cc
any-values ((j, w) ∷ d) k v h = ground (arith, any-values d k v)

pub send_all_frame :
    (ks : List ℕ) (r : AttachResult) (b : Broker)
    → ((send_all ks r b).channels ≡ b.channels)
      × ((send_all ks r b).objects ≡ b.objects)
      × ((send_all ks r b).closed ≡ b.closed)
unfolding send_all
send_all_frame [] r b = (refl, refl, refl)
send_all_frame (k ∷ ks) r b = unfold send_reply in send_all_frame ks r (send_reply k r b)

-- An empty mailbox that is sent to gets the reply; one that is full keeps what it has.
pub mailbox-send_all :
    (ks : List ℕ) (r : AttachResult) (b : Broker) (k : ℕ)
    → get_elem? (send_all ks r b).mailboxes k ≡ (
        if any (eqb k) ks
        then map_option (offer_reply r) (get_elem? b.mailboxes k)
        else get_elem? b.mailboxes k)
unfolding send_all any
mailbox-send_all [] r b k = refl
mailbox-send_all (j ∷ ks) r b k =
    unfold send_reply offer_reply in
    ground (
      arith,
      mailbox-send_all ks r (send_reply j r b) k,
      get_elem?-modify b.mailboxes j k (offer_reply r),
    )

abbrev pub emptied : Channel → Channel
emptied c = record c { sessions = []; ack_wait = [] }

module _ (id : Text) (ref : ℕ) (ch : Channel) (b : Broker) (listed : get b.channels id ≡ some ref)
    (stored : get_elem? b.objects ref ≡ some ch) where
  unfoldable pub unlisted : Broker
  unlisted = update ref emptied (record b { channels = remove b.channels id })

  pub remove_channel_lem :
      remove_channel id b
      ≡ send_all
          (values ch.ack_wait)
          (some provider_disconnected)
          (close_all (values ch.sessions) unlisted)
  unfolding remove_channel unlisted
  remove_channel_lem = rw listed (rw stored)

  -- After `removeChannel` the id is not active, every other id is as before, the channel has
  -- neither sessions nor waiters, each consumer that had a session is closed, and each waiting
  -- attachment whose mailbox was empty has the reply that the provider is gone.
  pub remove_channel-ends :
      (channel_active id (remove_channel id b) ≡ false)
      × ((j : Text) → id ≢ j → get (remove_channel id b).channels j ≡ get b.channels j)
      × (get_elem? (remove_channel id b).objects ref
          ≡ some (record ch { sessions = []; ack_wait = [] }))
      × ((sid : Text) (conn : ℕ)
          → get ch.sessions sid ≡ some conn
          → is_closed conn (remove_channel id b) ≡ true)
      × ((sid : Text) (k : ℕ)
          → get ch.ack_wait sid ≡ some k
          → get_elem? b.mailboxes k ≡ some none
          → get_elem? (remove_channel id b).mailboxes k ≡ some (some (some provider_disconnected)))
  unfolding channel_active unlisted
  remove_channel-ends =
      let ks = values ch.ack_wait in
      let shut = close_all (values ch.sessions) unlisted in
      let closing = close_all_frame (values ch.sessions) unlisted in
      let sending = send_all_frame ks (some provider_disconnected) shut in
      rw remove_channel_lem (
        ground (arith, sending, closing, get-remove b.channels id id, eq_refl id),
        λ j n. ground (arith, sending, closing, get-remove b.channels id j, eq_iff id j),
        ground (arith, sending, closing, get_elem?-modify b.objects ref ref emptied),
        λ sid conn e.
            unfold is_closed in
            ground (
              arith,
              sending,
              is_closed-close_all conn (values ch.sessions) unlisted,
              any-values ch.sessions sid conn e,
            ),
        λ sid k e f.
            unfold offer_reply in
            ground (
              arith,
              mailbox-send_all ks (some provider_disconnected) shut k,
              closing,
              any-values ch.ack_wait sid k e,
            ),
      )

-- An id that is not listed, or whose channel is not in the store, leaves the store alone.
pub remove_channel_cases :
    (id : Text) (b : Broker)
    → (((remove_channel id b).objects ≡ b.objects)
        × ((remove_channel id b).mailboxes ≡ b.mailboxes))
      ⊎ ((ref : ℕ) × (ch : Channel) × (get b.channels id ≡ some ref)
          × (get_elem? b.objects ref ≡ some ch))
unfolding remove_channel
remove_channel_cases id b = elim (Option-cases (get b.channels id)) [
  | inl e ↦ rw e (inl (refl, refl))
  | inr (ref, e) ↦ elim (Option-cases (get_elem? b.objects ref)) [
    | inl f ↦ inl (rw e (rw f (refl, refl)))
    | inr (ch, f) ↦ inr (ref, ch, e, f)
  ]
]

pub abort_frame :
    (id : Text) (b : Broker)
    → ((abort_provider_registration id b).objects ≡ b.objects)
      × ((abort_provider_registration id b).mailboxes ≡ b.mailboxes)
unfolding abort_provider_registration
abort_frame id b = go (channel_at b (get b.channels id))
  where
    go :
        (o : Option Channel)
        → let b' = abort_found o (record b { channels = remove b.channels id }) in
          (b'.objects ≡ b.objects) × (b'.mailboxes ≡ b.mailboxes)
    go none = (refl, refl)
    go (some ch) = (refl, refl)

pub channels-abort :
    (id : Text) (b : Broker) → (abort_provider_registration id b).channels ≡ remove b.channels id
unfolding abort_provider_registration
channels-abort id b = go (channel_at b (get b.channels id))
  where
    go :
        (o : Option Channel)
        → (abort_found o (record b { channels = remove b.channels id })).channels
          ≡ remove b.channels id
    go none = refl
    go (some ch) = refl

channels-remove_found :
    (found : Option ℕ) (o : Option Channel) (b : Broker)
    → (remove_found found o b).channels ≡ b.channels
unfolding remove_found
channels-remove_found (some ref) (some ch) b =
    let shut = close_all (values ch.sessions) (update ref emptied b) in
    (send_all_frame (values ch.ack_wait) (some provider_disconnected) shut).0
    ∙ (close_all_frame (values ch.sessions) (update ref emptied b)).0
channels-remove_found (some ref) none b = refl
channels-remove_found none o b = refl

remove_channel-inactive : (id : Text) (b : Broker) → channel_active id (remove_channel id b) ≡ false
unfolding remove_channel channel_active
remove_channel-inactive id b =
    let found = get b.channels id in
    ground (
      arith,
      channels-remove_found found (channel_at b found)
          (record b { channels = remove b.channels id }),
      get-remove b.channels id id,
      eq_refl id,
    )

channel_id_of-format :
    (u : Uuid) (id fresh : Text)
    → UuidLaws u
    → length id ≡ 16
    → channel_id_of u fresh (u.format id) ≡ ok id
unfolding channel_id_of
channel_id_of-format u id fresh laws h =
    rw (laws.format_trimmed id, laws.format_filled id, laws.parse_format id h)

-- A provider that comes back with the id of a channel that was removed gets that id again.
pub reclaim-remove_channel :
    (u : Uuid) (id fresh : Text) (agent : ℕ) (offer : Offer) (b : Broker)
    → UuidLaws u
    → length id ≡ 16
    → port_in_range offer.local_port ≡ true
    → offer.channel_id ≡ u.format id
    → let r = register_provider u fresh agent offer (remove_channel id b) in
      (r.0 ≡ ok (id, length (remove_channel id b).objects)) × (channel_active id r.1 ≡ true)
unfolding register_provider
reclaim-remove_channel u id fresh agent offer b laws h port asked =
    let off = remove_channel-inactive id b in
    rw (port, asked, channel_id_of-format u id fresh laws h)
      (unfold channel_active in rw off (refl, simp (get-put, eq_refl)))
