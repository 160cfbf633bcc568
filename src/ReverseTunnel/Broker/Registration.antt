-- ===== src/ReverseTunnel/Broker/Registration.antt =====
-- `RegisterProvider` on each of its outcomes.
use pspxy.Base.{
  ℕ, suc, ◌≡◌, refl, true, false, [], ◌∷◌, ◌++◌, some, if◌then◌else◌, Text, arith, ◌==◌, is_some,
  get, put, Result, ok, err, length, get_elem?, get_elem?-append, get-put, size-put, eq_refl,
  Result-cases, Bool-cases, inl, inr, ◌⊎◌,
}
use pspxy.Strings.{is_empty}
use pspxy.Uuid.{Uuid}
use pspxy.ReverseTunnel.Broker.{
  Offer, RegisterError, bad_port, already_active, Channel, Broker, default_host, port_in_range,
  channel_id_of, register_provider, register_id, channel_active, channel_count,
}

-- The channel that a registration stores.
abbrev pub new_channel : Text → ℕ → Offer → Channel
new_channel id agent offer = record {
  id = id;
  agent = agent;
  offer = record offer {
    local_host = if is_empty offer.local_host then default_host else offer.local_host;
  };
  sessions = [];
  ack_wait = [];
}

-- The registration of `id` under the pointer `ref`, as seen from outside.
pub record Registers (id : Text) (agent ref : ℕ) (offer : Offer) (b b' : Broker) : Type 0 where
  pub was_inactive : channel_active id b ≡ false
  pub is_active : (j : Text) → channel_active j b' ≡ (if id == j then true else channel_active j b)
  pub stored : get b'.channels id ≡ some ref
  pub object : get_elem? b'.objects ref ≡ some (new_channel id agent offer)
  pub one_more : channel_count b' ≡ suc (channel_count b)

module _ (u : Uuid) (fresh : Text) (agent : ℕ) (offer : Offer) (b : Broker) where
  abbrev outcome : Result RegisterError (Text × ℕ) × Broker
  outcome = register_provider u fresh agent offer b

  added :
      (id : Text)
      → is_some (get b.channels id) ≡ false
      → Registers id agent (length b.objects) offer b (record b {
        channels = put b.channels id (length b.objects);
        objects = b.objects ++ new_channel id agent offer ∷ [];
      })
  unfolding channel_active channel_count
  added id off = record {
    was_inactive = off;
    is_active = λ j. ground (arith, get-put b.channels id j (length b.objects));
    stored = simp (get-put, eq_refl);
    object =
        ground (arith, get_elem?-append b.objects (new_channel id agent offer) (length b.objects));
    one_more = ground (arith, size-put b.channels id (length b.objects));
  }

  -- Registration fails, with the broker unchanged, if the port is out of range, the requested id
  -- does not parse, or the id is active; else it adds one channel under that id, with the host
  -- defaulted, and changes the state of no other id.
  pub register_provider-outcome :
      ((port_in_range offer.local_port ≡ false) × (outcome ≡ (err bad_port, b)))
      ⊎ ((e : RegisterError) × (channel_id_of u fresh offer.channel_id ≡ err e)
          × (outcome ≡ (err e, b)))
      ⊎ ((id : Text) × (channel_id_of u fresh offer.channel_id ≡ ok id)
          × (channel_active id b ≡ true)
          × (outcome ≡ (err already_active, b)))
      ⊎ ((id : Text) × (ref : ℕ) × (channel_id_of u fresh offer.channel_id ≡ ok id)
          × (outcome.0 ≡ ok (id, ref))
          × Registers id agent ref offer b outcome.1)
  unfolding register_provider channel_active
  register_provider-outcome = elim (Bool-cases (port_in_range offer.local_port)) [
    | inr bad ↦ inl (bad, rw bad)
    | inl good ↦ elim (Result-cases (channel_id_of u fresh offer.channel_id)) [
      | inr (e, q) ↦ inr (inl (e, q, rw (good, q)))
      | inl (id, q) ↦ elim (Bool-cases (is_some (get b.channels id))) [
        | inl on ↦ inr (inr (inl (id, q, on, rw (good, q) (rw on))))
        | inr off ↦ inr (
            inr (
              inr (
                id,
                length b.objects,
                q,
                rw (good, q) (rw off),
                rw (good, q) (rw off (added id off)),
              )))
      ]
    ]
  ]

-- Registration adds at most one channel, which has no waiter, and leaves the mailboxes alone.
pub register_provider_frame :
    (u : Uuid) (fresh : Text) (agent : ℕ) (offer : Offer) (b : Broker)
    → let b' = (register_provider u fresh agent offer b).1 in
      (b'.mailboxes ≡ b.mailboxes)
      × ((b'.objects ≡ b.objects)
          ⊎ ((ch : Channel) × (ch.ack_wait ≡ []) × (b'.objects ≡ b.objects ++ ch ∷ [])))
register_provider_frame u fresh agent offer b = elim (Bool-cases (port_in_range offer.local_port)) [
  | inr bad ↦ unfold register_provider in rw bad (refl, inl refl)
  | inl good ↦ unfold register_provider in rw good (go (channel_id_of u fresh offer.channel_id))
]
  where
    stored : Offer
    stored = record offer {
      local_host = if is_empty offer.local_host then default_host else offer.local_host;
    }

    go :
        (r : Result RegisterError Text)
        → let b' = (register_id agent stored b r).1 in
          (b'.mailboxes ≡ b.mailboxes)
          × ((b'.objects ≡ b.objects)
              ⊎ ((ch : Channel) × (ch.ack_wait ≡ []) × (b'.objects ≡ b.objects ++ ch ∷ [])))
    go (err e) = unfold register_id in (refl, inl refl)
    go (ok id) = elim (Bool-cases (is_some (get b.channels id))) [
      | inl on ↦ unfold register_id in rw on (refl, inl refl)
      | inr off ↦ unfold register_id in rw off (refl, inr (new_channel id agent offer, refl, refl))
    ]
