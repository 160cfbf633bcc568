-- ===== src/ReverseTunnel/Session/Attach.antt =====
-- The attachment of a consumer, from the request to the reply.
use pspxy.Base.{
  ℕ, ◌≡◌, refl, Bool, true, false, List, Option, none, some, Text, arith, get, put, remove,
  get_elem?, modify, codes, eq_iff, eq_refl, get_elem?-modify, get-put,
}
use pspxy.Uuid.{Uuid}
use pspxy.ReverseTunnel.Broker.{
  Channel, update, Broker, new_broker, AttachedMsg, AttachResult, text_message, send_reply,
  offer_reply,
}
use pspxy.ReverseTunnel.Session.{agent_read, attach_end, attach_answered, reply_of}
use pspxy.ReverseTunnel.Session.Steps.{Event, run}
use pspxy.ReverseTunnel.Session.Waiters.{run-Inv}
use pspxy.ReverseTunnel.Session.Waiters.Lemmas.{InvOf}

abbrev session_in : Option Channel → Text → Option ℕ
session_in none sid = none
session_in (some ch) sid = get ch.sessions sid

-- The consumer of a session, if it is established.
abbrev pub session : ℕ → Text → Broker → Option ℕ
session ref sid b = session_in (get_elem? b.objects ref) sid

module _ (u : Uuid) (b : Broker) (ref : ℕ) (ch : Channel) (sid : Text) (k : ℕ) (m : AttachedMsg)
    (v : InvOf b) (stored : get_elem? b.objects ref ≡ some ch)
    (waiting : get ch.ack_wait sid ≡ some k) (attached : m.cmd ≡ codes "attached")
    (named : u.parse m.sid ≡ some sid) where
  -- The broker once the reply is sent.
  after : Broker
  after =
      send_reply k (reply_of m) (update ref (λ c. record c { ack_wait = remove c.ack_wait sid }) b)

  agent_read-attached :
      (can_write can_detach : Bool)
      → (agent_read u can_write can_detach ref (text_message (some m)) b).1 ≡ after
  unfolding agent_read after
  agent_read-attached can_write can_detach =
      rw stored (rw ((eq_iff m.cmd (codes "attached")).1 attached) (rw named (rw waiting)))

  mailbox-after : get_elem? after.mailboxes k ≡ some (some (reply_of m))
  unfolding after send_reply offer_reply
  mailbox-after =
      let empty : get_elem? b.mailboxes k ≡ some none = v.empty ref sid k (rw stored waiting) in
      ground (arith, get_elem?-modify b.mailboxes k k (offer_reply (reply_of m)))

  session-after :
      (cons : ℕ)
      → session ref sid (update ref (λ c. record c { sessions = put c.sessions sid cons }) after)
        ≡ some cons
  unfolding after send_reply
  session-after cons =
      let drop : Channel → Channel = λ c. record c { ack_wait = remove c.ack_wait sid } in
      ground (
        arith,
        get_elem?-modify (modify b.objects ref drop) ref ref
            (λ c. record c { sessions = put c.sessions sid cons }),
        get_elem?-modify b.objects ref ref drop,
        get-put ch.sessions sid sid cons,
        eq_refl sid,
      )

  answered :
      (cons : ℕ) (r : AttachResult)
      → reply_of m ≡ r
      → ((attach_answered ref sid cons (some r) after).0 ≡ some r)
        × (m.is_ok ≡ true
            → session ref sid (attach_answered ref sid cons (some r) after).1 ≡ some cons)
  unfolding reply_of attach_answered
  answered cons (some e) q = (refl, λ h. absurd (ground arith))
  answered cons none q = (refl, λ h. session-after cons)

-- In every state that a new broker can reach, the `attached` message of a provider for a session
-- that waits is what the waiting `AttachConsumer` gets, and if it says ok the session is then
-- established with that consumer.
pub attach_end-answered :
    (u : Uuid) (es : List Event) (ref : ℕ) (ch : Channel) (sid : Text) (k : ℕ) (m : AttachedMsg)
    → get_elem? (run u es new_broker).objects ref ≡ some ch
    → get ch.ack_wait sid ≡ some k
    → m.cmd ≡ codes "attached"
    → u.parse m.sid ≡ some sid
    → (can_write can_detach : Bool) (cons : ℕ)
    → let b =
        (agent_read u can_write can_detach ref (text_message (some m)) (run u es new_broker)).1 in
      ((attach_end false ref sid cons k b).0 ≡ some (reply_of m))
      × (m.is_ok ≡ true → session ref sid (attach_end false ref sid cons k b).1 ≡ some cons)
unfolding attach_end
attach_end-answered u es ref ch sid k m stored waiting attached named can_write can_detach cons =
    let b = run u es new_broker in
    let v = run-Inv u es in
    rw (agent_read-attached u b ref ch sid k m v stored waiting attached named can_write can_detach)
      (rw (mailbox-after u b ref ch sid k m v stored waiting attached named)
        (answered u b ref ch sid k m v stored waiting attached named cons (reply_of m) refl))
