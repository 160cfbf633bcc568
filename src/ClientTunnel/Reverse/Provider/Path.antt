-- ===== src/ClientTunnel/Reverse/Provider/Path.antt =====
-- The path of a session's bytes from the consumer's WebSocket at the server to the provider's TCP
-- connection and back, and the session's beginning on both sides.
use pspxy.Base.{
  List, ◌≡◌, ◌≢◌, refl, sym, ap, ◌∙◌, ℕ, Bool, true, false, ◌∷◌, Option, none, some, Text, codes,
  ◌==◌, arith, get, get-put_self, get_elem?, length, Result, ok, err,
}
use pspxy.Strings.{is_empty}
use pspxy.Uuid.{Uuid, UuidLaws}
use pspxy.ReverseTunnel.Frame.{session_id_size, prepend_session_id}
use pspxy.ReverseTunnel.Broker.{
  Broker, Channel, AttachResult, new_broker, binary as to_agent, text_message as agent_text,
  binary_message as agent_binary,
}
use pspxy.ReverseTunnel.Session.{agent_read, consumer_read, attach_end, reply_of}
use pspxy.ReverseTunnel.Session.Steps.{Event, run}
use pspxy.ReverseTunnel.Session.Attach.{session, attach_end-answered}
use pspxy.ReverseTunnel.Session.Routing.{delivered, agent_read-frame, consumer_read-frame}
use pspxy.ClientTunnel.Reverse.Provider.{
  Command, text_message, binary_message, attached, binary, Provider, ack_of, opened, on_attach,
  on_command, to_session, on_frame, serve_round, pump_round,
}

module _ (u : Uuid) (ref : ℕ) (ch : Channel) (sid body : Text) (b : Broker) (p : Provider)
    (stored : get_elem? b.objects ref ≡ some ch) (whole : length sid ≡ session_id_size) where
  -- What a consumer of a session sends is one frame from the server to the provider, and the
  -- provider's loop writes exactly those bytes to the connection of that session; nothing else
  -- changes on either side, and both loops go on.
  pub consumer_read-serve_round :
      (can_detach : Bool) (can_write : Bool) (dialed : Result Text ℕ) (tc : ℕ)
      → get p.tcp_by_session sid ≡ some tc
      → (frame : Text) × (consumer_read u true can_detach ref sid (agent_binary body) b
          ≡ (true, record b { sent = (ch.agent, to_agent frame) ∷ b.sent }))
        × (serve_round u can_write true dialed (binary_message frame) p
            ≡ (true, record p { tcp_written = (tc, body) ∷ p.tcp_written }))
  unfolding serve_round on_frame to_session
  consumer_read-serve_round can_detach can_write dialed tc at =
      let (frame, sent, parsed) = consumer_read-frame u ref ch sid body b stored whole can_detach in
      (frame, sent, rw parsed (rw at refl))

  -- What the provider reads from the connection of a session is one frame to the server, which
  -- writes exactly those bytes to the consumer of that session; where there is no such consumer they
  -- are dropped.
  pub pump_round-agent_read :
      (can_detach : Bool) (tc : ℕ)
      → is_empty body ≡ false
      → (frame : Text) × (pump_round true sid tc body false p
          ≡ (true, record p { sent = binary frame ∷ p.sent }))
        × (agent_read u true can_detach ref (agent_binary frame) b
            ≡ (true, delivered (get ch.sessions sid) body b))
  unfolding pump_round
  pump_round-agent_read can_detach tc full = (
    prepend_session_id sid body,
    rw full,
    agent_read-frame u ref ch sid body b stored whole can_detach,
  )

ack-cmd : (s : Text) (dialed : Result Text ℕ) → (ack_of s dialed).cmd ≡ codes "attached"
unfolding ack_of
ack-cmd s (ok tc) = refl
ack-cmd s (err e) = refl

ack-sid : (s : Text) (dialed : Result Text ℕ) → (ack_of s dialed).sid ≡ s
unfolding ack_of
ack-sid s (ok tc) = refl
ack-sid s (err e) = refl

-- A failed dial is no success for the consumer.
refused_reply :
    (s e : Text)
    → ◌≡◌ {A = Option AttachResult} (some (reply_of (ack_of s (err e)))) (some none)
    → ⊥
unfolding reply_of ack_of
refused_reply s e h = ground arith

abbrev attach_command : Uuid → Text → Command
attach_command u sid = record { cmd = codes "attach"; sid = u.format sid }

serve_round-attach :
    (u : Uuid) (laws : UuidLaws u) (sid : Text) (dialed : Result Text ℕ) (can_tcp : Bool)
    (p : Provider)
    → length sid ≡ session_id_size
    → serve_round u true can_tcp dialed (text_message (some (attach_command u sid))) p ≡ (
      true,
      record (opened sid dialed p) {
        sent = attached (ack_of (u.format sid) dialed) ∷ (opened sid dialed p).sent;
      },
    )
unfolding serve_round on_command on_attach ◌==◌
serve_round-attach u laws sid dialed can_tcp p whole = rw (laws.parse_format sid whole)

constructor_inj : (a b : ℕ) → ◌≡◌ {A = Result Text ℕ} (ok a) (ok b) → a ≡ b
constructor_inj a b e = cc

-- A consumer waits for its session at a broker in a reachable state. When the provider's loop gets the
-- command to attach the session, it sends one acknowledgement and goes on; and that
-- acknowledgement is what `AttachConsumer` returns on. If the dial succeeded, the session stands
-- with that connection at the provider and with that consumer at the broker; if it failed, the
-- consumer gets an error.
pub attach-both_sides :
    (u : Uuid) (laws : UuidLaws u) (es : List Event) (ref : ℕ) (ch : Channel) (sid : Text) (k : ℕ)
    (p : Provider) (dialed : Result Text ℕ)
    → get_elem? (run u es new_broker).objects ref ≡ some ch
    → get ch.ack_wait sid ≡ some k
    → length sid ≡ session_id_size
    → (can_write can_detach can_tcp : Bool) (cons : ℕ)
    → let ack = ack_of (u.format sid) dialed in
      let r = serve_round u true can_tcp dialed (text_message (some (attach_command u sid))) p in
      let b =
        (agent_read u can_write can_detach ref (agent_text (some ack)) (run u es new_broker)).1 in
      let a = attach_end false ref sid cons k b in
      (r.0 ≡ true)
      × (r.1.sent ≡ attached ack ∷ p.sent)
      × (a.0 ≡ some (reply_of ack))
      × ((tc : ℕ)
          → dialed ≡ ok tc
          → (get r.1.tcp_by_session sid ≡ some tc)
            × (a.0 ≡ some none)
            × (session ref sid a.1 ≡ some cons))
      × ((e : Text) → dialed ≡ err e → (r.1.tcp_by_session ≡ p.tcp_by_session) × (a.0 ≢ some none))
unfolding opened
attach-both_sides u laws es ref ch sid k p (ok tc) stored waiting whole can_write can_detach can_tcp
      cons =
    let dialed : Result Text ℕ = ok tc in
    let ack = ack_of (u.format sid) dialed in
    let named : u.parse ack.sid ≡ some sid =
      rw (ack-sid (u.format sid) dialed) (laws.parse_format sid whole) in
    let (answer, established) =
      attach_end-answered u es ref ch sid k ack stored waiting (ack-cmd (u.format sid) dialed) named
        can_write can_detach cons in
    let is_ok : ack.is_ok ≡ true = unfold ack_of in refl in
    let fine : reply_of ack ≡ none = unfold reply_of ack_of in refl in
    rw (serve_round-attach u laws sid dialed can_tcp p whole) (
      refl,
      refl,
      answer,
      λ tc' e. (
        get-put_self p.tcp_by_session sid tc ∙ ap some (constructor_inj tc tc' e),
        answer ∙ ap some fine,
        established is_ok,
      ),
      λ e' e. cc,
    )
attach-both_sides u laws es ref ch sid k p (err e) stored waiting whole can_write can_detach can_tcp
      cons =
    let dialed : Result Text ℕ = err e in
    let ack = ack_of (u.format sid) dialed in
    let named : u.parse ack.sid ≡ some sid =
      rw (ack-sid (u.format sid) dialed) (laws.parse_format sid whole) in
    let (answer, established) =
      attach_end-answered u es ref ch sid k ack stored waiting (ack-cmd (u.format sid) dialed) named
        can_write can_detach cons in
    rw (serve_round-attach u laws sid dialed can_tcp p whole) (
      refl,
      refl,
      answer,
      λ tc' h. cc,
      λ e' h. (refl, λ q. refused_reply (u.format sid) e (sym answer ∙ q)),
    )
