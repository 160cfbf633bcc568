-- ===== src/ReverseTunnel/Session/Waiters.antt =====
-- Every attachment that waits is known to its channel under a mailbox of its own that is empty, so
-- that no reply of a provider is dropped: an invariant of every sequence of steps.
pub mod Lemmas
mod Changes
use pspxy.Base.{
  ℕ, ◌≡◌, refl, ap, sym, subst, ◌≢◌, ◌∙◌, Bool, true, false, not, ◌&&◌, ◌||◌, List, [], ◌∷◌, ◌++◌,
  Option, none, some, if◌then◌else◌, Text, arith, ◌==◌, is_some, Dict, get, put, remove, values,
  Result, ok, err, length, get_elem?, modify, IsDistinct, Bool-cases, Option-cases, inl, inr, codes,
}
use pspxy.Uuid.{Uuid}
use pspxy.ReverseTunnel.Frame.{parse_prefixed_message}
use pspxy.ReverseTunnel.Broker.{
  Offer, Channel, Broker, new_broker, Incoming, failed, other_message, text_message, binary_message,
  AttachedMsg, AttachResult, register_provider, abort_provider_registration, close, channel_at,
  write, update, send_reply, Message, detach,
}
use pspxy.ReverseTunnel.Broker.Registration.{register_provider_frame}
use pspxy.ReverseTunnel.Broker.Removal.{abort_frame}
use pspxy.ReverseTunnel.Session.Steps.{
  Event, registers, aborts, agent_sends, attaches, resumes, consumer_sends, step, run,
}
use pspxy.ReverseTunnel.Session.{
  agent_read, agent_at, consumer_at, agent_round, attach_begin, attach_found, attach_end,
  attach_answered, awaited, consumer_read, consumer_round, on_text, attached_sid, deliver_reply,
  reply_of, on_binary, deliver_body, close_session, close_found,
}
use Lemmas.{Inv, InvOf, waits, Inv-drop, Inv-reply, Inv-add, Inv-keep}
use Changes.{Inv-append, Inv-remove_channel}

close_found-Inv : (o : Option ℕ) (b : Broker) → InvOf b → InvOf (close_found o b)
unfolding close_found
close_found-Inv none b v = v
close_found-Inv (some c) b v = v

write-Inv :
    (can_write : Bool) (conn : ℕ) (msg : Message) (b : Broker)
    → InvOf b
    → InvOf (write can_write conn msg b)
write-Inv true conn msg b v = v
write-Inv false conn msg b v = v

close_session-Inv :
    (u : Uuid) (can_write : Bool) (ref : ℕ) (ch : Channel) (sid : Text) (b : Broker)
    → InvOf b
    → InvOf (close_session u can_write ref ch sid b)
unfolding close_session
close_session-Inv u can_write ref ch sid b v =
    write-Inv can_write ch.agent (detach (u.format sid)) _ (
      close_found-Inv (get ch.sessions sid) _ (
        Inv-keep b.objects b.mailboxes ref (λ c. record c { sessions = remove c.sessions sid })
          (λ c. refl) v))

deliver_reply-Inv :
    (ref : ℕ) (sid : Text) (m : AttachedMsg) (ch : Channel) (b : Broker)
    → get_elem? b.objects ref ≡ some ch
    → InvOf b
    → InvOf (deliver_reply ref sid m (get ch.ack_wait sid) b)
deliver_reply-Inv ref sid m ch b e v = go (get ch.ack_wait sid) refl
  where
    go : (o : Option ℕ) → get ch.ack_wait sid ≡ o → InvOf (deliver_reply ref sid m o b)
    go none q = unfold deliver_reply in Inv-drop b.objects b.mailboxes ref sid v
    go (some k) q =
        unfold deliver_reply send_reply in
        Inv-reply b.objects b.mailboxes ref sid k (reply_of m) (rw e q) v

on_text-Inv :
    (u : Uuid) (ref : ℕ) (ch : Channel) (m : Option AttachedMsg) (b : Broker)
    → get_elem? b.objects ref ≡ some ch
    → InvOf b
    → InvOf (on_text u ref ch m b)
unfolding on_text
on_text-Inv u ref ch none b e v = v
on_text-Inv u ref ch (some m) b e v = elim (Bool-cases (m.cmd == codes "attached")) [
  | inr other ↦ rw other v
  | inl attached ↦ rw attached (go (u.parse m.sid))
]
  where
    go : (o : Option Text) → InvOf (attached_sid ref m ch o b)
    go none = v
    go (some sid) = deliver_reply-Inv ref sid m ch b e v

on_binary-Inv :
    (u : Uuid) (can_write can_detach : Bool) (ref : ℕ) (ch : Channel) (d : Option (Text × Text))
    (b : Broker)
    → InvOf b
    → InvOf (on_binary u can_write can_detach ref ch d b)
unfolding on_binary
on_binary-Inv u can_write can_detach ref ch none b v = v
on_binary-Inv u can_write can_detach ref ch (some (sid, body)) b v =
    go can_write (get ch.sessions sid)
  where
    go : (w : Bool) (o : Option ℕ) → InvOf (deliver_body u w can_detach ref ch sid body o b)
    go w none = v
    go true (some conn) = v
    go false (some conn) = close_session-Inv u can_detach ref ch sid b v

agent_round-Inv :
    (u : Uuid) (can_write can_detach : Bool) (ref : ℕ) (ch : Channel) (msg : Incoming) (b : Broker)
    → get_elem? b.objects ref ≡ some ch
    → InvOf b
    → InvOf (agent_round u can_write can_detach ref ch msg b).1
unfolding agent_round
agent_round-Inv u can_write can_detach ref ch failed b e v =
    Inv-remove_channel ch.id (close ch.agent b) v
agent_round-Inv u can_write can_detach ref ch other_message b e v = v
agent_round-Inv u can_write can_detach ref ch (text_message m) b e v = on_text-Inv u ref ch m b e v
agent_round-Inv u can_write can_detach ref ch (binary_message d) b e v =
    on_binary-Inv u can_write can_detach ref ch (parse_prefixed_message d) b v

agent_read-Inv :
    (u : Uuid) (can_write can_detach : Bool) (ref : ℕ) (msg : Incoming) (b : Broker)
    → InvOf b
    → InvOf (agent_read u can_write can_detach ref msg b).1
agent_read-Inv u can_write can_detach ref msg b v =
    unfold agent_read in go (get_elem? b.objects ref) refl
  where
    go :
        (o : Option Channel)
        → get_elem? b.objects ref ≡ o
        → InvOf (agent_at u can_write can_detach ref msg b o).1
    go none e = unfold agent_at in v
    go (some ch) e = unfold agent_at in agent_round-Inv u can_write can_detach ref ch msg b e v

attach_found-Inv :
    (u : Uuid) (can_write : Bool) (sid : Text) (cons : ℕ) (found : Option ℕ) (o : Option Channel)
    (b : Broker)
    → InvOf b
    → InvOf (attach_found u can_write sid cons found o b).1
unfolding attach_found
attach_found-Inv u true sid cons (some ref) (some ch) b v = Inv-add b.objects b.mailboxes ref sid v
attach_found-Inv u false sid cons (some ref) (some ch) b v =
    Inv-drop _ _ ref sid (Inv-add b.objects b.mailboxes ref sid v)
attach_found-Inv u _ sid cons _ _ b v = v

attach_answered-Inv :
    (ref : ℕ) (sid : Text) (cons : ℕ) (r : Option AttachResult) (b : Broker)
    → InvOf b
    → InvOf (attach_answered ref sid cons r b).1
unfolding attach_answered
attach_answered-Inv ref sid cons none b v = v
attach_answered-Inv ref sid cons (some (some e)) b v = Inv-drop b.objects b.mailboxes ref sid v
attach_answered-Inv ref sid cons (some none) b v =
    Inv-keep b.objects b.mailboxes ref (λ c. record c { sessions = put c.sessions sid cons })
      (λ c. refl) v

consumer_read-Inv :
    (u : Uuid) (can_write can_detach : Bool) (ref : ℕ) (sid : Text) (msg : Incoming) (b : Broker)
    → InvOf b
    → InvOf (consumer_read u can_write can_detach ref sid msg b).1
consumer_read-Inv u can_write can_detach ref sid msg b v =
    unfold consumer_read in at (get_elem? b.objects ref)
  where
    go :
        (w : Bool) (ch : Channel) (msg : Incoming)
        → InvOf (consumer_round u w can_detach ref ch sid msg b).1
    go w ch failed = unfold consumer_round in close_session-Inv u can_detach ref ch sid b v
    go true ch (binary_message d) = unfold consumer_round in v
    go false ch (binary_message d) =
        unfold consumer_round in close_session-Inv u can_detach ref ch sid b v
    go w ch other_message = unfold consumer_round in v
    go w ch (text_message m) = unfold consumer_round in v

    at : (o : Option Channel) → InvOf (consumer_at u can_write can_detach sid ref msg b o).1
    at none = unfold consumer_at in v
    at (some ch) = unfold consumer_at in go can_write ch msg

registers-Inv :
    (u : Uuid) (fresh : Text) (agent : ℕ) (offer : Offer) (b : Broker)
    → InvOf b
    → InvOf (register_provider u fresh agent offer b).1
registers-Inv u fresh agent offer b v =
    let f = register_provider_frame u fresh agent offer b in
    elim f.1 [
      | inl e ↦ rw (f.0, e) v
      | inr (ch, no_waiter, e) ↦ rw (f.0, e) (Inv-append b.objects b.mailboxes ch no_waiter v)
    ]

step-Inv : (u : Uuid) (e : Event) (b : Broker) → InvOf b → InvOf (step u e b)
unfolding step
step-Inv u (registers fresh agent offer) b v = registers-Inv u fresh agent offer b v
step-Inv u (aborts id) b v = rw (abort_frame id b).0 (rw (abort_frame id b).1 v)
step-Inv u (agent_sends can_write can_detach ref msg) b v =
    agent_read-Inv u can_write can_detach ref msg b v
step-Inv u (attaches can_write sid id cons) b v =
    unfold attach_begin in
    attach_found-Inv u can_write sid cons (get b.channels id) (channel_at b (get b.channels id)) b v
step-Inv u (resumes timed_out ref sid cons k) b v =
    unfold attach_end in
    attach_answered-Inv ref sid cons (awaited timed_out (get_elem? b.mailboxes k)) b v
step-Inv u (consumer_sends can_write can_detach ref sid msg) b v =
    consumer_read-Inv u can_write can_detach ref sid msg b v

run-step_Inv : (u : Uuid) (es : List Event) (b : Broker) → InvOf b → InvOf (run u es b)
unfolding run
run-step_Inv u [] b v = v
run-step_Inv u (e ∷ es) b v = run-step_Inv u es (step u e b) (step-Inv u e b v)

-- After any sequence of steps of a new broker, every session that a channel has waiting has an
-- empty mailbox, which no other session waits on.
pub run-Inv : (u : Uuid) (es : List Event) → InvOf (run u es new_broker)
run-Inv u es = run-step_Inv u es new_broker (record {
  empty = λ ref sid k e. cc;
  apart = λ ref ref' sid sid' k e e'. cc;
  distinct = λ ref. tt;
})
