-- ===== src/ReverseTunnel/Session.antt =====
-- internal/reversetunnel/broker.go: the loops that read the agent and the consumers, and the
-- attachment of a consumer.
pub mod Steps
pub mod Attach
pub mod Routing
pub mod Waiters
use pspxy.Base.{
  ℕ, Bool, true, false, not, ◌&&◌, ◌||◌, List, [], ◌∷◌, ◌++◌, Option, none, some, if◌then◌else◌,
  Text, codes, ◌==◌, Dict, get, put, remove, Result, ok, err, length, get_elem?, modify,
}
use pspxy.Strings.{is_empty}
use pspxy.Uuid.{Uuid}
use pspxy.ReverseTunnel.Frame.{prepend_session_id, parse_prefixed_message}
use pspxy.ReverseTunnel.Broker.{
  AttachedMsg, AttachError, channel_not_found, attach_failed, attach_timeout, write_failed, refused,
  AttachResult, Channel, Message, attach, detach, binary, Incoming, failed, other_message,
  text_message, binary_message, Broker, close, write, update, channel_at, send_reply,
  remove_channel,
}

-- The reply to an `attached` message.
unfoldable pub reply_of : AttachedMsg → AttachResult
reply_of m =
    if m.is_ok
    then none
    else if is_empty m.error_text
    then some attach_failed
    else some (refused m.error_text)

deliver_reply : ℕ → Text → AttachedMsg → Option ℕ → Broker → Broker
unfolding send_reply reply_of
deliver_reply ref sid m none b = update ref (λ c. record c { ack_wait = remove c.ack_wait sid }) b
deliver_reply ref sid m (some k) b =
    send_reply k (reply_of m) (update ref (λ c. record c { ack_wait = remove c.ack_wait sid }) b)

attached_sid : ℕ → AttachedMsg → Channel → Option Text → Broker → Broker
unfolding deliver_reply
attached_sid ref m ch none b = b
attached_sid ref m ch (some sid) b = deliver_reply ref sid m (get ch.ack_wait sid) b

-- A text message of the agent.
unfoldable pub on_text : Uuid → ℕ → Channel → Option AttachedMsg → Broker → Broker
unfolding attached_sid
on_text u ref ch none b = b
on_text u ref ch (some m) b =
    if m.cmd == codes "attached" then attached_sid ref m ch (u.parse m.sid) b else b

close_found : Option ℕ → Broker → Broker
close_found none b = b
close_found (some conn) b = close conn b

unfoldable pub close_session : Uuid → Bool → ℕ → Channel → Text → Broker → Broker
unfolding close_found
close_session u can_write ref ch sid b = write can_write ch.agent (detach (u.format sid)) (
    close_found (get ch.sessions sid)
      (update ref (λ c. record c { sessions = remove c.sessions sid }) b))

deliver_body : Uuid → Bool → Bool → ℕ → Channel → Text → Text → Option ℕ → Broker → Broker
unfolding close_session
deliver_body u can_write can_detach ref ch sid body none b = b
deliver_body u can_write can_detach ref ch sid body (some conn) b =
    if can_write then write true conn (binary body) b else close_session u can_detach ref ch sid b

-- A binary message of the agent.
unfoldable pub on_binary : Uuid → Bool → Bool → ℕ → Channel → Option (Text × Text) → Broker → Broker
unfolding deliver_body
on_binary u can_write can_detach ref ch none b = b
on_binary u can_write can_detach ref ch (some (sid, body)) b =
    deliver_body u can_write can_detach ref ch sid body (get ch.sessions sid) b

-- One round of `agentReadLoop`; the result says whether the loop goes on. The deferred calls close
-- the agent and then remove the channel.
agent_round : Uuid → Bool → Bool → ℕ → Channel → Incoming → Broker → Bool × Broker
unfolding on_text on_binary remove_channel
agent_round u can_write can_detach ref ch failed b =
    (false, remove_channel ch.id (close ch.agent b))
agent_round u can_write can_detach ref ch other_message b = (true, b)
agent_round u can_write can_detach ref ch (text_message m) b = (true, on_text u ref ch m b)
agent_round u can_write can_detach ref ch (binary_message d) b =
    (true, on_binary u can_write can_detach ref ch (parse_prefixed_message d) b)

agent_at : Uuid → Bool → Bool → ℕ → Incoming → Broker → Option Channel → Bool × Broker
unfolding agent_round
agent_at u can_write can_detach ref msg b none = (false, b)
agent_at u can_write can_detach ref msg b (some ch) =
    agent_round u can_write can_detach ref ch msg b

unfoldable pub agent_read : Uuid → Bool → Bool → ℕ → Incoming → Broker → Bool × Broker
unfolding agent_at
agent_read u can_write can_detach ref msg b =
    agent_at u can_write can_detach ref msg b (get_elem? b.objects ref)

-- `AttachConsumer` up to the wait. The result holds the channel's pointer, the session's id and the
-- mailbox that the call waits on.
attach_found :
    Uuid
    → Bool
    → Text
    → ℕ
    → Option ℕ
    → Option Channel
    → Broker
    → Result AttachError (ℕ × Text × ℕ) × Broker
attach_found u can_write sid cons (some ref) (some ch) b =
    let k = length b.mailboxes in
    if can_write
    then (
      ok (ref, sid, k),
      write true ch.agent (attach (u.format sid)) (record b {
        objects = modify b.objects ref (λ c. record c { ack_wait = put c.ack_wait sid k });
        mailboxes = b.mailboxes ++ none ∷ [];
      }),
    )
    else (
      err write_failed,
      close cons (record b {
        objects =
            modify (modify b.objects ref (λ c. record c { ack_wait = put c.ack_wait sid k })) ref
              (λ c. record c { ack_wait = remove c.ack_wait sid });
        mailboxes = b.mailboxes ++ none ∷ [];
      }),
    )
attach_found u can_write sid cons _ _ b = (err channel_not_found, close cons b)

-- `sid` is the fresh session id.
unfoldable pub attach_begin :
    Uuid → Bool → Text → Text → ℕ → Broker → Result AttachError (ℕ × Text × ℕ) × Broker
unfolding attach_found
attach_begin u can_write sid id cons b =
    let found = get b.channels id in attach_found u can_write sid cons found (channel_at b found) b

-- What the `select` yields: the reply or the timeout, at Go's choice if both are there, and nothing
-- while it blocks. The flag says that the timer has fired and is chosen.
unfoldable pub awaited : Bool → Option (Option AttachResult) → Option AttachResult
awaited true reply = some (some attach_timeout)
awaited false none = none
awaited false (some reply) = reply

attach_answered : ℕ → Text → ℕ → Option AttachResult → Broker → Option AttachResult × Broker
attach_answered ref sid cons none b = (none, b)
attach_answered ref sid cons (some (some e)) b =
    (some (some e), close cons (update ref (λ c. record c { ack_wait = remove c.ack_wait sid }) b))
attach_answered ref sid cons (some none) b =
    (some none, update ref (λ c. record c { sessions = put c.sessions sid cons }) b)

-- The rest of `AttachConsumer`; no result means that it still waits.
unfoldable pub attach_end : Bool → ℕ → Text → ℕ → ℕ → Broker → Option AttachResult × Broker
unfolding attach_answered awaited
attach_end timed_out ref sid cons k b =
    attach_answered ref sid cons (awaited timed_out (get_elem? b.mailboxes k)) b

-- One round of the goroutine that reads a consumer; it ends by `closeSession`.
consumer_round : Uuid → Bool → Bool → ℕ → Channel → Text → Incoming → Broker → Bool × Broker
unfolding close_session
consumer_round u can_write can_detach ref ch sid failed b =
    (false, close_session u can_detach ref ch sid b)
consumer_round u can_write can_detach ref ch sid (binary_message d) b =
    if can_write
    then (true, write true ch.agent (binary (prepend_session_id sid d)) b)
    else (false, close_session u can_detach ref ch sid b)
consumer_round u can_write can_detach ref ch sid _ b = (true, b)

consumer_at : Uuid → Bool → Bool → Text → ℕ → Incoming → Broker → Option Channel → Bool × Broker
unfolding consumer_round
consumer_at u can_write can_detach sid ref msg b none = (false, b)
consumer_at u can_write can_detach sid ref msg b (some ch) =
    consumer_round u can_write can_detach ref ch sid msg b

unfoldable pub consumer_read : Uuid → Bool → Bool → ℕ → Text → Incoming → Broker → Bool × Broker
unfolding consumer_at
consumer_read u can_write can_detach ref sid msg b =
    consumer_at u can_write can_detach sid ref msg b (get_elem? b.objects ref)
