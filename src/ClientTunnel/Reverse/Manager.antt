-- ===== src/ClientTunnel/Reverse/Manager.antt =====
-- internal/clienttunnel/reverse_manager.go: the manager of the reverse tunnels' entries. A call
-- waits for the goroutine of the entry that it restarts, stops or removes, and a call is one step,
-- and the end of a goroutine that nobody waits for is a step of its own (`provider_ended`,
-- `consumer_ended`). The starts release the lock between their check and their store: `begin_provider`
-- and `launch_provider`, `begin_consumer` and `launch_consumer` are the two halves, which
-- Overlap.antt lets overlap. What lies outside is an argument: the handshake, `net.Listen`, the random ids,
-- and the error with which a goroutine ends.
pub mod Conflicts
pub mod Clash
pub mod Kept
pub mod Views
pub mod Start
pub mod Bootstrap
pub mod Starts
pub mod Calls
pub mod Outcome
pub mod Reclaim
pub mod Overlap
use pspxy.Base.{
  ℕ, ℤ, eqb_ℤ, Bool, true, false, not, ◌&&◌, ◌||◌, List, [], ◌∷◌, Option, none, some, is_some,
  if◌then◌else◌, eqb, Text, ◌==◌, Dict, get, put, remove, any_entry, Result, ok, err,
}
use pspxy.Strings.{trim_space, is_empty}
use pspxy.ClientTunnel.Reverse.{
  ReverseProviderPersist, ReverseConsumerPersist, effective_enabled, Error, consumer_listens,
  target_taken, listen_taken, provider_exposed, still_running, handshake_failed, listen_failed,
  host_or_default, normalize_provider, normalize_consumer, validate_provider, validate_consumer,
}
use pspxy.ClientTunnel.Reverse.Hosts.{
  fuzzy_host_match, listen_host_port_collides_expose, tcp_bindings_equiv,
}

-- revProviderInst. `ws` numbers the open WebSocket; `serveDone` is set and cleared with it.
pub record ProviderInst : Type 0 where
  pub cfg : ReverseProviderPersist
  pub channel_id : Text
  pub ws : Option ℕ
  pub last_run_err : Option Text

-- revConsumerInst. `listener` numbers the open listener; `cancel` is set and cleared with it.
pub record ConsumerInst : Type 0 where
  pub cfg : ReverseConsumerPersist
  pub listener : Option ℕ
  pub last_run_err : Option Text

pub record ReverseManager : Type 0 where
  pub providers : Dict ProviderInst
  pub consumers : Dict ConsumerInst

abbrev pub new_reverse_manager : ReverseManager
new_reverse_manager = record { providers = []; consumers = [] }

-- HandshakeReverseProvider, by the entry and the channel that is asked for: an error, or the
-- channel that the server confirms and the WebSocket.
abbrev pub Handshake : Type 0
Handshake = ReverseProviderPersist → Text → Result Text (Text × ℕ)

-- The goroutine that serves a WebSocket ends.
unfoldable pub end_provider : Option Text → ProviderInst → ProviderInst
end_provider run_err it =
    if is_some it.ws then record it { ws = none; last_run_err = run_err } else it

unfoldable pub end_consumer : Option Text → ConsumerInst → ConsumerInst
end_consumer run_err it =
    if is_some it.listener then record it { listener = none; last_run_err = run_err } else it

-- Close what the entry of an id has open and wait for its goroutine.
unfoldable pub wait_provider_ended : Option Text → Text → ReverseManager → ReverseManager
unfolding end_provider
wait_provider_ended run_err id m = ended (get m.providers id)
  where
    ended : Option ProviderInst → ReverseManager
    ended none = m
    ended (some it) = record m { providers = put m.providers id (end_provider run_err it) }

unfoldable pub wait_consumer_ended : Option Text → Text → ReverseManager → ReverseManager
unfolding end_consumer
wait_consumer_ended run_err id m = ended (get m.consumers id)
  where
    ended : Option ConsumerInst → ReverseManager
    ended none = m
    ended (some it) = record m { consumers = put m.consumers id (end_consumer run_err it) }

-- The two tests of `checkProviderConflictsLocked`.
unfoldable pub listens_on : ReverseProviderPersist → Text → ConsumerInst → Bool
listens_on p cid ct =
    listen_host_port_collides_expose ct.cfg.listen (host_or_default p.local_host) p.local_port

unfoldable pub same_target : Text → ReverseProviderPersist → Text → ProviderInst → Bool
same_target self_id p pid ot =
    not (pid == self_id)
    && (eqb_ℤ ot.cfg.local_port p.local_port
        && fuzzy_host_match (host_or_default ot.cfg.local_host) (host_or_default p.local_host))

unfoldable pub check_provider_conflicts :
    Text → ReverseProviderPersist → ReverseManager → Option Error
unfolding listens_on same_target
check_provider_conflicts self_id p m =
    if any_entry (listens_on p) m.consumers
    then some consumer_listens
    else if any_entry (same_target self_id p) m.providers
    then some target_taken
    else none

-- The two tests of `checkConsumerConflictsLocked`.
unfoldable pub same_listen : Text → ReverseConsumerPersist → Text → ConsumerInst → Bool
same_listen self_id c cid oc = not (cid == self_id) && tcp_bindings_equiv oc.cfg.listen c.listen

unfoldable pub exposes : ReverseConsumerPersist → Text → ProviderInst → Bool
exposes c pid pv =
    listen_host_port_collides_expose c.listen (host_or_default pv.cfg.local_host) pv.cfg.local_port

unfoldable pub check_consumer_conflicts :
    Text → ReverseConsumerPersist → ReverseManager → Option Error
unfolding same_listen exposes
check_consumer_conflicts self_id c m =
    if any_entry (same_listen self_id c) m.consumers
    then some listen_taken
    else if any_entry (exposes c) m.providers
    then some provider_exposed
    else none

unfoldable pub provider_running : Option ProviderInst → Bool
provider_running none = false
provider_running (some it) = is_some it.ws

unfoldable pub consumer_running : Option ConsumerInst → Bool
consumer_running none = false
consumer_running (some it) = is_some it.listener

abbrev pub set_provider : Text → ProviderInst → ReverseManager → ReverseManager
set_provider id it m = record m { providers = put m.providers id it }

abbrev pub set_consumer : Text → ConsumerInst → ReverseManager → ReverseManager
set_consumer id it m = record m { consumers = put m.consumers id it }

abbrev pub inactive_provider : ReverseProviderPersist → ProviderInst
inactive_provider p = record { cfg = p; channel_id = []; ws = none; last_run_err = none }

abbrev pub inactive_consumer : ReverseConsumerPersist → ConsumerInst
inactive_consumer c = record { cfg = c; listener = none; last_run_err = none }

unfoldable pub put_provider_checked :
    ReverseProviderPersist → ReverseManager → Option Error → Option Error × ReverseManager
put_provider_checked p m (some e) = (some e, m)
put_provider_checked p m none = (none, set_provider p.id (inactive_provider p) m)

unfoldable pub put_provider_inactive :
    ReverseProviderPersist → ReverseManager → Option Error × ReverseManager
unfolding provider_running put_provider_checked check_provider_conflicts
put_provider_inactive p m =
    if provider_running (get m.providers p.id)
    then (some still_running, m)
    else put_provider_checked p m (check_provider_conflicts p.id p m)

unfoldable pub put_consumer_checked :
    ReverseConsumerPersist → ReverseManager → Option Error → Option Error × ReverseManager
put_consumer_checked c m (some e) = (some e, m)
put_consumer_checked c m none = (none, set_consumer c.id (inactive_consumer c) m)

unfoldable pub put_consumer_inactive :
    ReverseConsumerPersist → ReverseManager → Option Error × ReverseManager
unfolding consumer_running put_consumer_checked check_consumer_conflicts
put_consumer_inactive c m =
    if consumer_running (get m.consumers c.id)
    then (some still_running, m)
    else put_consumer_checked c m (check_consumer_conflicts c.id c m)

unfoldable pub stop_provider : Option Text → Text → ReverseManager → ReverseManager
unfolding wait_provider_ended
stop_provider run_err id m =
    let s = trim_space id in if is_empty s then m else wait_provider_ended run_err s m

unfoldable pub remove_provider : Option Text → Text → ReverseManager → ReverseManager
unfolding wait_provider_ended
remove_provider run_err id m =
    let s = trim_space id in
    if is_empty s
    then m
    else (let m' = wait_provider_ended run_err s m in
        record m' { providers = remove m'.providers s })

unfoldable pub stop_consumer : Option Text → Text → ReverseManager → ReverseManager
unfolding wait_consumer_ended
stop_consumer run_err id m =
    let s = trim_space id in if is_empty s then m else wait_consumer_ended run_err s m

unfoldable pub remove_consumer : Option Text → Text → ReverseManager → ReverseManager
unfolding wait_consumer_ended
remove_consumer run_err id m =
    let s = trim_space id in
    if is_empty s
    then m
    else (let m' = wait_consumer_ended run_err s m in
        record m' { consumers = remove m'.consumers s })
