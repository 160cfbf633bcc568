-- ===== src/Tests/ReverseTunnel.antt =====
-- internal/reversetunnel at concrete inputs: a provider that registers, and a consumer that waits.
use pspxy.Base.{
  ℕ, ◌≡◌, ◌≢◌, ◌⊎◌, refl, pos, true, false, List, [], ◌∷◌, none, some, Text, codes, ok, err, Result,
  get, put, get_elem?, length, modify, ◌==◌, is_space,
}
use pspxy.Strings.{trim_space}
use pspxy.ReverseTunnel.Broker.{
  Offer, AttachedMsg, provider_disconnected, RegisterError, bad_port, already_active, Channel,
  Broker, new_broker, text_message, binary_message, binary, register_provider, remove_channel,
  channel_active, channel_id_of, port_in_range,
}
use pspxy.ReverseTunnel.Broker.Registration.{Registers, register_provider-outcome}
use pspxy.ReverseTunnel.Broker.Removal.{is_closed, remove_channel-ends, reclaim-remove_channel}
use pspxy.ReverseTunnel.Session.{agent_read, consumer_read, attach_begin, attach_end, reply_of}
use pspxy.ReverseTunnel.Session.Steps.{Event, registers, attaches, step, run}
use pspxy.ReverseTunnel.Session.Waiters.{run-Inv}
use pspxy.ReverseTunnel.Session.Waiters.Lemmas.{InvOf}
use pspxy.ReverseTunnel.Session.Attach.{session, attach_end-answered}
use pspxy.ReverseTunnel.Session.Routing.{delivered}
use pspxy.ClientTunnel.Reverse.Provider.{
  Provider, new_provider, attached, binary as provider_frame, binary_message as provider_binary,
  text_message as provider_text, ack_of, serve_round, pump_round,
}
use pspxy.ClientTunnel.Reverse.Provider.Path.{
  consumer_read-serve_round, pump_round-agent_read, attach-both_sides,
}
use pspxy.Tests.Parameters.{uuid, uuid-UuidLaws, braced}

abbrev channel_id : Text
channel_id = codes "channel-channel-"

abbrev session_id : Text
session_id = codes "session-session-"

abbrev pub offer : Offer
offer = record { local_host = []; local_port = pos 80; channel_id = [] }

abbrev events : List Event
events = registers channel_id 7 offer ∷ attaches true session_id channel_id 9 ∷ []

abbrev waiting : Channel
waiting = record {
  id = channel_id;
  agent = 7;
  offer = record offer { local_host = codes "127.0.0.1" };
  sessions = [];
  ack_wait = (session_id, 0) ∷ [];
}

abbrev established : Channel
established = record waiting { sessions = (session_id, 9) ∷ []; ack_wait = [] }

-- The broker with one channel, one session, and one consumer that waits under another id.
abbrev serving : Broker
serving = record {
  channels = (channel_id, 0) ∷ [];
  objects = record waiting { sessions = (codes "t", 9) ∷ [] } ∷ [];
  mailboxes = none ∷ [];
  closed = [];
  sent = [];
}

abbrev accepted : AttachedMsg
accepted = record { cmd = codes "attached"; sid = braced session_id; is_ok = true; error_text = [] }

stored_lem : get_elem? (run uuid events new_broker).objects 0 ≡ some waiting
unfolding run step register_provider attach_begin get put ◌==◌ channel_id_of trim_space is_space
    uuid port_in_range modify
stored_lem = refl

waits_lem : get waiting.ack_wait session_id ≡ some 0
unfolding get ◌==◌
waits_lem = refl

parses_lem : uuid.parse accepted.sid ≡ some session_id
unfolding uuid braced
parses_lem = refl

run-Inv_example : InvOf (run uuid events new_broker)
run-Inv_example = run-Inv uuid events

attach_end-answered_example :
    let b =
      (agent_read uuid true true 0 (text_message (some accepted)) (run uuid events new_broker)).1 in
    ((attach_end false 0 session_id 9 0 b).0 ≡ some (reply_of accepted))
    × (true ≡ true → session 0 session_id (attach_end false 0 session_id 9 0 b).1 ≡ some 9)
attach_end-answered_example =
    attach_end-answered uuid events 0 waiting session_id 0 accepted stored_lem waits_lem refl
      parses_lem true true 9

register_provider-outcome_example :
    let t = register_provider uuid channel_id 7 offer new_broker in
    ((port_in_range (pos 80) ≡ false) × (t ≡ (err bad_port, new_broker)))
    ⊎ ((e : RegisterError) × (channel_id_of uuid channel_id [] ≡ err e) × (t ≡ (err e, new_broker)))
    ⊎ ((id : Text) × (channel_id_of uuid channel_id [] ≡ ok id)
        × (channel_active id new_broker ≡ true)
        × (t ≡ (err already_active, new_broker)))
    ⊎ ((id : Text) × (ref : ℕ) × (channel_id_of uuid channel_id [] ≡ ok id)
        × (t.0 ≡ ok (id, ref))
        × Registers id 7 ref offer new_broker t.1)
register_provider-outcome_example = register_provider-outcome uuid channel_id 7 offer new_broker

listed_lem : get serving.channels channel_id ≡ some 0
unfolding get ◌==◌
listed_lem = refl

remove_channel-ends_example :
    (channel_active channel_id (remove_channel channel_id serving) ≡ false)
    × ((j : Text)
        → channel_id ≢ j
        → get (remove_channel channel_id serving).channels j ≡ get serving.channels j)
    × (get_elem? (remove_channel channel_id serving).objects 0
        ≡ some (record waiting { sessions = []; ack_wait = [] }))
    × ((sid : Text) (conn : ℕ)
        → get ((codes "t", 9) ∷ []) sid ≡ some conn
        → is_closed conn (remove_channel channel_id serving) ≡ true)
    × ((sid : Text) (k : ℕ)
        → get waiting.ack_wait sid ≡ some k
        → get_elem? serving.mailboxes k ≡ some none
        → get_elem? (remove_channel channel_id serving).mailboxes k
          ≡ some (some (some provider_disconnected)))
remove_channel-ends_example =
    remove_channel-ends channel_id 0 (record waiting { sessions = (codes "t", 9) ∷ [] }) serving
      listed_lem refl

port_lem : port_in_range (pos 80) ≡ true
unfolding port_in_range
port_lem = refl

reclaim-remove_channel_example :
    let r =
      register_provider uuid [] 8
        (record offer { channel_id = uuid.format channel_id })
        (remove_channel channel_id serving) in
    (r.0 ≡ ok (channel_id, length (remove_channel channel_id serving).objects))
    × (channel_active channel_id r.1 ≡ true)
reclaim-remove_channel_example =
    reclaim-remove_channel uuid channel_id [] 8
      (record offer { channel_id = uuid.format channel_id }) serving uuid-UuidLaws refl port_lem
      refl

-- The provider with a session and its connection 4.
abbrev provider : Provider
provider = record new_provider { tcp_by_session = (session_id, 4) ∷ [] }

open_lem : get provider.tcp_by_session session_id ≡ some 4
unfolding get ◌==◌
open_lem = refl

consumer_read-serve_round_example :
    (frame : Text) × (consumer_read uuid true true 0 session_id
        (binary_message (codes "hi"))
        serving
      ≡ (true, record serving { sent = (7, binary frame) ∷ [] }))
    × (serve_round uuid true true (err []) (provider_binary frame) provider
        ≡ (true, record provider { tcp_written = (4, codes "hi") ∷ [] }))
consumer_read-serve_round_example =
    consumer_read-serve_round uuid 0 (record waiting { sessions = (codes "t", 9) ∷ [] }) session_id
      (codes "hi") serving provider refl refl true true (err []) 4 open_lem

pump_round-agent_read_example :
    (frame : Text) × (pump_round true session_id 4 (codes "hi") false provider
      ≡ (true, record provider { sent = provider_frame frame ∷ [] }))
    × (agent_read uuid true true 0
          (binary_message frame)
          (record serving { objects = established ∷ [] })
        ≡ (
          true,
          delivered
              (get established.sessions session_id)
              (codes "hi")
              (record serving { objects = established ∷ [] }),
        ))
pump_round-agent_read_example =
    pump_round-agent_read uuid 0 established session_id (codes "hi")
      (record serving { objects = established ∷ [] }) provider refl refl true 4 refl

attach-both_sides_example :
    let dialed : Result Text ℕ = ok 4 in
    let ack = ack_of (uuid.format session_id) dialed in
    let r =
      serve_round uuid true true dialed
        (provider_text (some (record { cmd = codes "attach"; sid = uuid.format session_id })))
        new_provider in
    let b =
      (agent_read uuid true true 0 (text_message (some ack)) (run uuid events new_broker)).1 in
    let a = attach_end false 0 session_id 9 0 b in
    (r.0 ≡ true)
    × (r.1.sent ≡ attached ack ∷ [])
    × (a.0 ≡ some (reply_of ack))
    × ((tc : ℕ)
        → dialed ≡ ok tc
        → (get r.1.tcp_by_session session_id ≡ some tc)
          × (a.0 ≡ some none)
          × (session 0 session_id a.1 ≡ some 9))
    × ((e : Text)
        → dialed ≡ err e
        → (r.1.tcp_by_session ≡ new_provider.tcp_by_session) × (a.0 ≢ some none))
attach-both_sides_example =
    attach-both_sides uuid uuid-UuidLaws events 0 waiting session_id 0 new_provider (ok 4)
      stored_lem waits_lem refl true true true 9
