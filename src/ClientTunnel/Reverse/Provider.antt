-- ===== src/ClientTunnel/Reverse/Provider.antt =====
-- internal/clienttunnel/reverse.go: the loop of a provider over the messages of its WebSocket, and
-- the goroutine that reads one session's TCP connection. A TCP connection is a number; `tcp_written`,
-- `tcp_closed` and `sent` record what was written, closed and sent, the latest first. Whether a
-- write succeeds and what `net.Dial` answers are arguments.
pub mod Path
use pspxy.Base.{
  ℕ, Bool, true, false, not, List, [], ◌∷◌, Option, none, some, if◌then◌else◌, Text, codes, ◌==◌,
  Dict, get, put, remove, Result, ok, err,
}
use pspxy.Strings.{is_empty}
use pspxy.Uuid.{Uuid}
use pspxy.ReverseTunnel.Frame.{prepend_session_id, parse_prefixed_message}
use pspxy.ReverseTunnel.Broker.{AttachedMsg}

-- What the server sends as text.
pub record Command : Type 0 where
  pub cmd : Text
  pub sid : Text

-- What `ReadMessage` returns, with what `json.Unmarshal` makes of a text message.
pub data Incoming : Type 0 where
  failed other_message : Incoming
  text_message : Option Command → Incoming
  binary_message : Text → Incoming

pub data Outgoing : Type 0 where
  attached : AttachedMsg → Outgoing
  binary : Text → Outgoing

pub record Provider : Type 0 where
  pub tcp_by_session : Dict ℕ
  pub tcp_written : List (ℕ × Text)
  pub tcp_closed : List ℕ
  pub sent : List Outgoing

abbrev pub new_provider : Provider
new_provider = record { tcp_by_session = []; tcp_written = []; tcp_closed = []; sent = [] }

-- Drop a session and close its connection.
abbrev pub drop_session : Text → ℕ → Provider → Provider
drop_session sid tc p = record p {
  tcp_by_session = remove p.tcp_by_session sid;
  tcp_closed = tc ∷ p.tcp_closed;
}

unfoldable pub on_detach : Text → Option ℕ → Provider → Provider
on_detach sid none p = record p { tcp_by_session = remove p.tcp_by_session sid }
on_detach sid (some tc) p = drop_session sid tc p

-- The answer to `attach`: the acknowledgement and the session, if the dial succeeds.
unfoldable pub ack_of : Text → Result Text ℕ → AttachedMsg
ack_of sid_text (ok tc) = record {
  cmd = codes "attached";
  sid = sid_text;
  is_ok = true;
  error_text = [];
}
ack_of sid_text (err e) = record {
  cmd = codes "attached";
  sid = sid_text;
  is_ok = false;
  error_text = e;
}

unfoldable pub opened : Text → Result Text ℕ → Provider → Provider
opened sid (ok tc) p = record p { tcp_by_session = put p.tcp_by_session sid tc }
opened sid (err e) p = p

-- The loop goes on unless the acknowledgement cannot be written.
unfoldable pub on_attach : Bool → Text → Text → Result Text ℕ → Provider → Bool × Provider
unfolding opened ack_of
on_attach can_write sid_text sid dialed p =
    let p' = opened sid dialed p in
    if can_write
    then (true, record p' { sent = attached (ack_of sid_text dialed) ∷ p'.sent })
    else (false, p')

unfoldable pub on_command :
    Bool → Result Text ℕ → Command → Option Text → Provider → Bool × Provider
unfolding on_detach on_attach
on_command can_write dialed m none p = (true, p)
on_command can_write dialed m (some sid) p =
    if m.cmd == codes "detach"
    then (true, on_detach sid (get p.tcp_by_session sid) p)
    else if m.cmd == codes "attach"
    then on_attach can_write m.sid sid dialed p
    else (true, p)

unfoldable pub to_session : Bool → Text → Text → Option ℕ → Provider → Provider
to_session can_tcp sid body none p = p
to_session can_tcp sid body (some tc) p =
    if can_tcp then record p { tcp_written = (tc, body) ∷ p.tcp_written } else drop_session sid tc p

unfoldable pub on_frame : Bool → Option (Text × Text) → Provider → Provider
unfolding to_session
on_frame can_tcp none p = p
on_frame can_tcp (some (sid, body)) p = to_session can_tcp sid body (get p.tcp_by_session sid) p

-- One round of `ServeReverseProvider`; the result says whether the loop goes on.
unfoldable pub serve_round :
    Uuid → Bool → Bool → Result Text ℕ → Incoming → Provider → Bool × Provider
unfolding on_command on_frame
serve_round u can_write can_tcp dialed failed p = (false, p)
serve_round u can_write can_tcp dialed other_message p = (true, p)
serve_round u can_write can_tcp dialed (text_message none) p = (true, p)
serve_round u can_write can_tcp dialed (text_message (some m)) p =
    on_command can_write dialed m (u.parse m.sid) p
serve_round u can_write can_tcp dialed (binary_message d) p =
    (true, on_frame can_tcp (parse_prefixed_message d) p)

-- One round of `pumpReverseTCPToWS`: what `Read` returned, and whether with an error.
unfoldable pub pump_round : Bool → Text → ℕ → Text → Bool → Provider → Bool × Provider
pump_round can_write sid tc bytes ended p =
    if is_empty bytes
    then (if ended then (false, drop_session sid tc p) else (true, p))
    else if not can_write
    then (false, drop_session sid tc p)
    else (let p' = record p { sent = binary (prepend_session_id sid bytes) ∷ p.sent } in
        if ended then (false, drop_session sid tc p') else (true, p'))
