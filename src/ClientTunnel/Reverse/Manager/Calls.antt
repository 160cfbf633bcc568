-- ===== src/ClientTunnel/Reverse/Manager/Calls.antt =====
-- Any calls of the reverse manager, with any outcomes of the handshakes, of listening and of the
-- goroutines.
use pspxy.Base.{ℕ, List, [], ◌∷◌, Option, none, some, Text, get, Result, Bool-cases, inl, inr}
use pspxy.ClientTunnel.Reverse.{
  ReverseProviderPersist, ReverseConsumerPersist, Error, effective_enabled, normalize_consumer,
  validate_provider, validate_consumer,
}
use pspxy.ClientTunnel.Reverse.Manager.{
  ReverseManager, new_reverse_manager, Handshake, stop_provider, stop_consumer, remove_provider,
  remove_consumer,
}
use pspxy.ClientTunnel.Reverse.Manager.Start.{
  provider_entry, start_provider, start_consumer, stop_all, provider_ended, consumer_ended,
}
use pspxy.ClientTunnel.Reverse.Manager.Bootstrap.{
  restore_provider, bootstrap_providers, restore_consumer, bootstrap_consumers,
}
use pspxy.ClientTunnel.Reverse.Manager.Conflicts.{IsClear}
use pspxy.ClientTunnel.Reverse.Manager.Clash.{HasNoClash, IsClear-HasNoClash}
use pspxy.ClientTunnel.Reverse.Manager.Kept.{
  stop_all-IsClear, provider_ended-IsClear, consumer_ended-IsClear, stop_provider-IsClear,
  stop_consumer-IsClear, remove_provider-IsClear, remove_consumer-IsClear,
}
use pspxy.ClientTunnel.Reverse.Manager.Starts.{
  put_provider_inactive-IsClear, put_consumer_inactive-IsClear, start_provider-IsClear,
  start_consumer-IsClear,
}

-- The calls, and the ends of the goroutines, with what the world answers to each.
pub data Call : Type 0 where
  starts_provider : Handshake → Text → Option Text → ReverseProviderPersist → Call
  starts_consumer : (Text → Result Text ℕ) → Option Text → ReverseConsumerPersist → Call
  stops_provider removes_provider stops_consumer removes_consumer : Option Text → Text → Call
  stops_all : Option Text → Call
  provider_ends consumer_ends : Text → ℕ → Option Text → Call
  restores_providers :
      Handshake → Option Text → (ReverseProviderPersist → Text) → List ReverseProviderPersist → Call
  restores_consumers : (Text → Result Text ℕ) → Option Text → List ReverseConsumerPersist → Call

unfoldable pub step : Call → ReverseManager → ReverseManager
step (starts_provider handshake new_id e p) m = (start_provider handshake new_id e p m).1
step (starts_consumer net_listen e c) m = (start_consumer net_listen e c m).1
step (stops_provider e id) m = stop_provider e id m
step (removes_provider e id) m = remove_provider e id m
step (stops_consumer e id) m = stop_consumer e id m
step (removes_consumer e id) m = remove_consumer e id m
step (stops_all e) m = stop_all e m
step (provider_ends id ws e) m = provider_ended id ws e m
step (consumer_ends id ln e) m = consumer_ended id ln e m
step (restores_providers handshake e new_id cfgs) m = bootstrap_providers handshake e new_id cfgs m
step (restores_consumers net_listen e cfgs) m = bootstrap_consumers net_listen e cfgs m

unfoldable pub run : List Call → ReverseManager → ReverseManager
run [] m = m
run (c ∷ cs) m = run cs (step c m)

restore_provider-IsClear :
    (handshake : Handshake) (run_err : Option Text) (p : ReverseProviderPersist)
    (m : ReverseManager) (new_id : Text) (o : Option Error)
    → IsClear m
    → IsClear (restore_provider handshake run_err p m new_id o)
unfolding restore_provider
restore_provider-IsClear handshake run_err p m new_id (some e) v = v
restore_provider-IsClear handshake run_err p m new_id none v =
    elim (Bool-cases (effective_enabled p.enabled)) [
      | inl e ↦ rw e (start_provider-IsClear m v run_err handshake new_id p)
      | inr e ↦ rw e (put_provider_inactive-IsClear m v p)
    ]

pub bootstrap_providers-IsClear :
    (handshake : Handshake) (run_err : Option Text) (new_id : ReverseProviderPersist → Text)
    (cfgs : List ReverseProviderPersist) (m : ReverseManager)
    → IsClear m
    → IsClear (bootstrap_providers handshake run_err new_id cfgs m)
unfolding bootstrap_providers
bootstrap_providers-IsClear handshake run_err new_id [] m v = v
bootstrap_providers-IsClear handshake run_err new_id (cfg ∷ cfgs) m v =
    let c = provider_entry (new_id cfg) cfg in
    bootstrap_providers-IsClear handshake run_err new_id cfgs
      (restore_provider handshake run_err c m (new_id cfg) (validate_provider c))
      (restore_provider-IsClear handshake run_err c m (new_id cfg) (validate_provider c) v)

restore_consumer-IsClear :
    (net_listen : Text → Result Text ℕ) (run_err : Option Text) (c : ReverseConsumerPersist)
    (m : ReverseManager) (o : Option Error)
    → IsClear m
    → IsClear (restore_consumer net_listen run_err c m o)
unfolding restore_consumer
restore_consumer-IsClear net_listen run_err c m (some e) v = v
restore_consumer-IsClear net_listen run_err c m none v =
    elim (Bool-cases (effective_enabled c.enabled)) [
      | inl e ↦ rw e (start_consumer-IsClear m v run_err net_listen c)
      | inr e ↦ rw e (put_consumer_inactive-IsClear m v c)
    ]

pub bootstrap_consumers-IsClear :
    (net_listen : Text → Result Text ℕ) (run_err : Option Text) (cfgs : List ReverseConsumerPersist)
    (m : ReverseManager)
    → IsClear m
    → IsClear (bootstrap_consumers net_listen run_err cfgs m)
unfolding bootstrap_consumers
bootstrap_consumers-IsClear net_listen run_err [] m v = v
bootstrap_consumers-IsClear net_listen run_err (cfg ∷ cfgs) m v =
    let c = normalize_consumer cfg in
    bootstrap_consumers-IsClear net_listen run_err cfgs
      (restore_consumer net_listen run_err c m (validate_consumer c))
      (restore_consumer-IsClear net_listen run_err c m (validate_consumer c) v)

step-IsClear : (c : Call) (m : ReverseManager) → IsClear m → IsClear (step c m)
unfolding step
step-IsClear (starts_provider handshake new_id e p) m v =
    start_provider-IsClear m v e handshake new_id p
step-IsClear (starts_consumer net_listen e c) m v = start_consumer-IsClear m v e net_listen c
step-IsClear (stops_provider e id) m v = stop_provider-IsClear m v e id
step-IsClear (removes_provider e id) m v = remove_provider-IsClear m v e id
step-IsClear (stops_consumer e id) m v = stop_consumer-IsClear m v e id
step-IsClear (removes_consumer e id) m v = remove_consumer-IsClear m v e id
step-IsClear (stops_all e) m v = stop_all-IsClear m v e
step-IsClear (provider_ends id ws e) m v = provider_ended-IsClear m v id ws e
step-IsClear (consumer_ends id ln e) m v = consumer_ended-IsClear m v id ln e
step-IsClear (restores_providers handshake e new_id cfgs) m v =
    bootstrap_providers-IsClear handshake e new_id cfgs m v
step-IsClear (restores_consumers net_listen e cfgs) m v =
    bootstrap_consumers-IsClear net_listen e cfgs m v

run-step_IsClear : (cs : List Call) (m : ReverseManager) → IsClear m → IsClear (run cs m)
unfolding run
run-step_IsClear [] m v = v
run-step_IsClear (c ∷ cs) m v = run-step_IsClear cs (step c m) (step-IsClear c m v)

pub run-IsClear : (cs : List Call) → IsClear (run cs new_reverse_manager)
unfolding get
run-IsClear cs =
    run-step_IsClear cs new_reverse_manager
      ((λ i j a b p q n. cc), (λ i j a b p q n. cc), (λ i j a b p q. cc))

-- After any calls on an empty reverse manager of which none starts before the one before it has
-- ended, whatever the outcomes of the handshakes, of listening and of the goroutines: no two
-- providers under different ids expose the same port of the same host, no two consumers under
-- different ids listen on the same port of the same host, and no consumer listens on the port from 1
-- on, of the same host, that a provider exposes. Hosts are the same if their names are, an empty one
-- standing for 127.0.0.1, or if both are named 127.0.0.1 or localhost.
pub run-HasNoClash : (cs : List Call) → HasNoClash (run cs new_reverse_manager)
run-HasNoClash cs = IsClear-HasNoClash (run cs new_reverse_manager) (run-IsClear cs)
