-- ===== src/ClientTunnel/Reverse/Manager/Start.antt =====
-- internal/clienttunnel/reverse_manager.go: StartProvider, StartConsumer, StopAll, and the ends of the goroutines.
use pspxy.Base.{
  ℕ, Bool, false, not, [], Option, none, some, if◌then◌else◌, eqb, Text, get, map_values, Result,
  ok, err,
}
use pspxy.Strings.{trim_space, is_empty}
use pspxy.ClientTunnel.Reverse.{
  ReverseProviderPersist, ReverseConsumerPersist, effective_enabled, Error, handshake_failed,
  listen_failed, normalize_provider, normalize_consumer, validate_provider, validate_consumer,
}
use pspxy.ClientTunnel.Reverse.Manager.{
  ProviderInst, ConsumerInst, ReverseManager, Handshake, end_provider, end_consumer,
  wait_provider_ended, wait_consumer_ended, check_provider_conflicts, check_consumer_conflicts,
  set_provider, set_consumer, put_provider_inactive, put_consumer_inactive, stop_provider,
  stop_consumer,
}

-- The choice within `MergePreserveProviderTunnelID`.
unfoldable pub preserved : ReverseProviderPersist → Option ProviderInst → ReverseProviderPersist
preserved p none = p
preserved p (some prev) =
    let kept = trim_space prev.cfg.channel_id in
    let issued = trim_space prev.channel_id in
    if not (is_empty kept)
    then record p { channel_id = kept }
    else if not (is_empty issued)
    then record p { channel_id = issued }
    else p

unfoldable pub merge_preserve_provider_tunnel_id :
    ReverseProviderPersist → ReverseManager → ReverseProviderPersist
unfolding preserved
merge_preserve_provider_tunnel_id p0 m =
    let p = normalize_provider p0 in
    if not (is_empty (trim_space p.channel_id))
    then p
    else (let id = trim_space p.id in if is_empty id then p else preserved p (get m.providers id))

-- The handshake for the channel of last time, and without one where that fails.
unfoldable pub handshake_entry : Handshake → ReverseProviderPersist → Result Text (Text × ℕ)
handshake_entry handshake p =
    let preferred = trim_space p.channel_id in
    if not (is_empty preferred) then again (handshake p preferred) else handshake p []
  where
    again : Result Text (Text × ℕ) → Result Text (Text × ℕ)
    again (ok r) = ok r
    again (err e) = handshake p []

unfoldable pub store_provider :
    ReverseProviderPersist
    → ReverseManager
    → Result Text (Text × ℕ)
    → Result Error Text × ReverseManager
store_provider p m (err e) = (
  err (handshake_failed e),
  set_provider p.id (record { cfg = p; channel_id = []; ws = none; last_run_err = some e }) m,
)
store_provider p m (ok (ch, ws)) = (
  ok ch,
  set_provider p.id
      (record {
        cfg = record p { channel_id = trim_space ch };
        channel_id = ch;
        ws = some ws;
        last_run_err = none;
      })
      m,
)

unfoldable pub registered : Option Error × ReverseManager → Result Error Text × ReverseManager
registered (some e, m) = (err e, m)
registered (none, m) = (ok [], m)

-- A disabled entry is registered only.
unfoldable pub launch_provider :
    Handshake
    → ReverseProviderPersist
    → ReverseManager
    → Option Error
    → Result Error Text × ReverseManager
unfolding registered store_provider handshake_entry
launch_provider handshake p m (some e) = (err e, m)
launch_provider handshake p m none =
    if not (effective_enabled p.enabled)
    then registered (put_provider_inactive p (stop_provider none p.id m))
    else store_provider p m (handshake_entry handshake p)

-- StartProvider up to the release of the lock after the check: the entry's goroutine has ended. The
-- lock is taken again when the entry is stored, without another check.
unfoldable pub begin_provider :
    Option Text → ReverseProviderPersist → ReverseManager → Option Error × ReverseManager
begin_provider run_err p m =
    let m' = wait_provider_ended run_err p.id m in (check_provider_conflicts p.id p m', m')

-- The call as a whole: no other one comes in between.
unfoldable pub start_provider_valid :
    Handshake
    → Option Text
    → ReverseProviderPersist
    → ReverseManager
    → Option Error
    → Result Error Text × ReverseManager
unfolding launch_provider begin_provider
start_provider_valid handshake run_err p m (some e) = (err e, m)
start_provider_valid handshake run_err p m none =
    let (o, m') = begin_provider run_err p m in launch_provider handshake p m' o

-- The entry that `StartProvider` works with: normalised, under a new id if it has none.
unfoldable pub provider_entry : Text → ReverseProviderPersist → ReverseProviderPersist
provider_entry new_id p0 =
    let p = normalize_provider p0 in
    if is_empty (trim_space p.id) then record p { id = new_id } else p

-- StartProvider; the result is the channel, empty for a disabled entry.
unfoldable pub start_provider :
    Handshake
    → Text
    → Option Text
    → ReverseProviderPersist
    → ReverseManager
    → Result Error Text × ReverseManager
unfolding start_provider_valid provider_entry
start_provider handshake new_id run_err p0 m =
    let p = provider_entry new_id p0 in
    start_provider_valid handshake run_err p m (validate_provider p)

unfoldable pub store_consumer :
    ReverseConsumerPersist → ReverseManager → Result Text ℕ → Option Error × ReverseManager
store_consumer c m (err e) = (
  some (listen_failed e),
  set_consumer c.id (record { cfg = c; listener = none; last_run_err = some e }) m,
)
store_consumer c m (ok ln) =
    (none, set_consumer c.id (record { cfg = c; listener = some ln; last_run_err = none }) m)

unfoldable pub launch_consumer :
    (Text → Result Text ℕ)
    → ReverseConsumerPersist
    → ReverseManager
    → Option Error
    → Option Error × ReverseManager
unfolding store_consumer
launch_consumer net_listen c m (some e) = (some e, m)
launch_consumer net_listen c m none =
    if not (effective_enabled c.enabled)
    then put_consumer_inactive c (stop_consumer none c.id m)
    else store_consumer c m (net_listen c.listen)

-- The same part of StartConsumer.
unfoldable pub begin_consumer :
    Option Text → ReverseConsumerPersist → ReverseManager → Option Error × ReverseManager
begin_consumer run_err c m =
    let m' = wait_consumer_ended run_err c.id m in (check_consumer_conflicts c.id c m', m')

unfoldable pub start_consumer_valid :
    (Text → Result Text ℕ)
    → Option Text
    → ReverseConsumerPersist
    → ReverseManager
    → Option Error
    → Option Error × ReverseManager
unfolding launch_consumer begin_consumer
start_consumer_valid net_listen run_err c m (some e) = (some e, m)
start_consumer_valid net_listen run_err c m none =
    let (o, m') = begin_consumer run_err c m in launch_consumer net_listen c m' o

unfoldable pub start_consumer :
    (Text → Result Text ℕ)
    → Option Text
    → ReverseConsumerPersist
    → ReverseManager
    → Option Error × ReverseManager
unfolding start_consumer_valid
start_consumer net_listen run_err c0 m =
    let c = normalize_consumer c0 in
    start_consumer_valid net_listen run_err c m (validate_consumer c)

-- StopAll; all goroutines are taken to end with the same error.
unfoldable pub stop_all : Option Text → ReverseManager → ReverseManager
stop_all run_err m = record {
  providers = map_values (end_provider run_err) m.providers;
  consumers = map_values (end_consumer run_err) m.consumers;
}

-- The end of a goroutine that nobody waits for: it clears its own connection only.
unfoldable pub provider_ended : Text → ℕ → Option Text → ReverseManager → ReverseManager
provider_ended row_id ws_ref run_err m = cleared (get m.providers row_id)
  where
    is_ref : Option ℕ → Bool
    is_ref none = false
    is_ref (some w) = eqb w ws_ref

    cleared : Option ProviderInst → ReverseManager
    cleared none = m
    cleared (some cur) =
        if is_ref cur.ws
        then set_provider row_id (record cur { ws = none; last_run_err = run_err }) m
        else m

unfoldable pub consumer_ended : Text → ℕ → Option Text → ReverseManager → ReverseManager
consumer_ended row_id ln run_err m = cleared (get m.consumers row_id)
  where
    is_ref : Option ℕ → Bool
    is_ref none = false
    is_ref (some l) = eqb l ln

    cleared : Option ConsumerInst → ReverseManager
    cleared none = m
    cleared (some cur) =
        if is_ref cur.listener
        then set_consumer row_id (record cur { listener = none; last_run_err = run_err }) m
        else m
