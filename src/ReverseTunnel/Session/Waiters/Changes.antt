-- ===== src/ReverseTunnel/Session/Waiters/Changes.antt =====
-- A new channel, and the end of a channel, as changes of the waiters.
use pspxy.Base.{
  ℕ, ◌≡◌, refl, sym, subst, ◌∙◌, Bool, true, false, List, [], ◌∷◌, ◌++◌, Option, none, some,
  if◌then◌else◌, Text, arith, get, values, length, get_elem?, modify, any, eqb, Bool-cases, inl,
  inr, get_elem?-append, values-get, map_option,
}
use pspxy.ReverseTunnel.Broker.{
  Channel, Broker, AttachResult, provider_disconnected, close_all, send_all, remove_channel,
}
use pspxy.ReverseTunnel.Broker.Removal.{
  mailbox-send_all, send_all_frame, close_all_frame, remove_channel_lem, remove_channel_cases,
  emptied, unlisted,
}
use pspxy.ReverseTunnel.Session.Waiters.Lemmas.{
  waits, waits_in, DistinctIn, Inv, InvOf, Inv-shrink, modify-distinct, waits-modify,
}

-- A channel without waiters is added.
pub Inv-append :
    (os : List Channel) (ms : List (Option AttachResult)) (ch : Channel)
    → ch.ack_wait ≡ []
    → Inv os ms
    → Inv (os ++ ch ∷ []) ms
Inv-append os ms ch e v = Inv-shrink os (os ++ ch ∷ []) ms ms fewer distinct v
  where
    fewer :
        (r : ℕ) (s : Text) (k : ℕ)
        → waits (os ++ ch ∷ []) r s ≡ some k
        → (waits os r s ≡ some k) × (get_elem? ms k ≡ get_elem? ms k)
    fewer r s k w = elim (Bool-cases (eqb r (length os))) [
      | inl t ↦
          let at : get_elem? (os ++ ch ∷ []) r ≡ some ch =
            ground (arith, get_elem?-append os ch r) in
          let nothing : waits (os ++ ch ∷ []) r s ≡ none = rw at (rw e (unfold get in refl)) in
          (cc, refl)
      | inr t ↦ (ground (arith, get_elem?-append os ch r), refl)
    ]

    distinct : (r : ℕ) → DistinctIn (get_elem? (os ++ ch ∷ []) r)
    distinct r = rw (get_elem?-append os ch r) (go (eqb r (length os)))
      where
        go : (b : Bool) → DistinctIn (if b then some ch else get_elem? os r)
        go true = rw e tt
        go false = v.distinct r

waits-emptied :
    (os : List Channel) (ref r : ℕ) (s : Text)
    → waits (modify os ref emptied) r s ≡ (if eqb ref r then none else waits os r s)
waits-emptied os ref r s = rw (waits-modify os ref emptied r s) (go (get_elem? os r))
  where
    go :
        (o : Option Channel)
        → (if eqb ref r then waits_in (map_option emptied o) s else waits_in o s)
          ≡ (if eqb ref r then none else waits_in o s)
    go none = refl
    go (some c) = unfold get in refl

module _ (id : Text) (ref : ℕ) (ch : Channel) (b : Broker) (listed : get b.channels id ≡ some ref)
    (stored : get_elem? b.objects ref ≡ some ch) (v : InvOf b) where
  shut : Broker
  shut = close_all (values ch.sessions) (unlisted id ref ch b listed stored)

  ended : Broker
  unfolding shut
  ended = send_all (values ch.ack_wait) (some provider_disconnected) shut

  ended_frame : (ended.objects ≡ modify b.objects ref emptied) × (shut.mailboxes ≡ b.mailboxes)
  unfolding ended unlisted
  ended_frame =
      let sending = send_all_frame (values ch.ack_wait) (some provider_disconnected) shut in
      let closing = close_all_frame (values ch.sessions) (unlisted id ref ch b listed stored) in
      (sending.1 ∙ closing.1, closing.2)

  -- No other waiter has a mailbox of this channel.
  unanswered :
      (r : ℕ) (s : Text) (k : ℕ)
      → eqb ref r ≡ false
      → waits b.objects r s ≡ some k
      → any (eqb k) (values ch.ack_wait) ≡ false
  unanswered r s k t w = elim (Bool-cases (any (eqb k) (values ch.ack_wait))) [
    | inr q ↦ q
    | inl q ↦
        let (sid, j, at, same) =
          values-get (eqb k) ch.ack_wait (subst DistinctIn stored (v.distinct ref)) q in
        let own : waits b.objects ref sid ≡ some k = rw stored (ground arith) in
        let both = v.apart ref r sid s k own w in ground arith
  ]

  fewer :
      (r : ℕ) (s : Text) (k : ℕ)
      → waits ended.objects r s ≡ some k
      → (waits b.objects r s ≡ some k) × (get_elem? ended.mailboxes k ≡ get_elem? b.mailboxes k)
  fewer r s k w =
      let e : waits (modify b.objects ref emptied) r s ≡ some k =
        subst (λ os. waits os r s ≡ some k) ended_frame.0 w in
      let kept : waits b.objects r s ≡ some k = ground (arith, waits-emptied b.objects ref r s) in
      let other : eqb ref r ≡ false = ground (arith, waits-emptied b.objects ref r s) in
      (
        kept,
        unfold ended in
            ground (
              arith,
              mailbox-send_all (values ch.ack_wait) (some provider_disconnected) shut k,
              unanswered r s k other kept,
              ended_frame.1,
            ),
      )

  Inv-ended : InvOf ended
  Inv-ended =
      Inv-shrink b.objects ended.objects b.mailboxes ended.mailboxes fewer
        (rw ended_frame.0 (modify-distinct b.objects ref emptied v.distinct (λ c h. tt))) v

-- The end of a channel.
pub Inv-remove_channel : (id : Text) (b : Broker) → InvOf b → InvOf (remove_channel id b)
Inv-remove_channel id b v = elim (remove_channel_cases id b) [
  | inl (e, f) ↦ rw (e, f) v
  | inr (ref, ch, e, f) ↦
      subst InvOf (sym (remove_channel_lem id ref ch b e f))
        (unfold ended in Inv-ended id ref ch b e f v)
]
