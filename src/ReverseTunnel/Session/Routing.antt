-- ===== src/ReverseTunnel/Session/Routing.antt =====
-- The path of the data: between a consumer and the provider, under the session's id.
use pspxy.Base.{ℕ, ◌≡◌, refl, Bool, true, ◌∷◌, Option, none, some, Text, get, length, get_elem?}
use pspxy.Uuid.{Uuid}
use pspxy.ReverseTunnel.Frame.{
  session_id_size, prepend_session_id, parse_prefixed_message, parse-prepend,
}
use pspxy.ReverseTunnel.Broker.{Channel, Broker, binary, binary_message}
use pspxy.ReverseTunnel.Session.{agent_read, consumer_read, deliver_body}

abbrev pub delivered : Option ℕ → Text → Broker → Broker
delivered none body b = b
delivered (some conn) body b = record b { sent = (conn, binary body) ∷ b.sent }

module _ (u : Uuid) (ref : ℕ) (ch : Channel) (sid body : Text) (b : Broker)
    (stored : get_elem? b.objects ref ≡ some ch) (whole : length sid ≡ session_id_size) where
  -- A frame that the provider sends under a session's id reaches the consumer of that session, with
  -- the id taken off, and nobody else; where there is no such session it is dropped. Nothing else
  -- of the broker changes, and the loop goes on.
  pub agent_read-frame :
      (can_detach : Bool)
      → agent_read u true can_detach ref (binary_message (prepend_session_id sid body)) b
        ≡ (true, delivered (get ch.sessions sid) body b)
  unfolding agent_read
  agent_read-frame can_detach =
      rw stored (rw (parse-prepend sid body whole) (go (get ch.sessions sid)))
    where
      go :
          (o : Option ℕ)
          → ◌≡◌ {A = Bool × Broker}
              (true, deliver_body u true can_detach ref ch sid body o b)
              (true, delivered o body b)
      go none = refl
      go (some conn) = refl

  -- What a consumer sends goes to its provider as one frame, which parses to the session's id and
  -- the bytes sent. Nothing else of the broker changes, and the loop goes on.
  pub consumer_read-frame :
      (can_detach : Bool)
      → (frame : Text) × (consumer_read u true can_detach ref sid (binary_message body) b
          ≡ (true, record b { sent = (ch.agent, binary frame) ∷ b.sent }))
        × (parse_prefixed_message frame ≡ some (sid, body))
  unfolding consumer_read
  consumer_read-frame can_detach =
      (prepend_session_id sid body, rw stored, parse-prepend sid body whole)
