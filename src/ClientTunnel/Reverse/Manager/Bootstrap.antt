-- ===== src/ClientTunnel/Reverse/Manager/Bootstrap.antt =====
-- internal/clienttunnel/reverse_manager.go: the entries of the configuration at the start.
use pspxy.Base.{not, List, [], ◌∷◌, Option, none, some, if◌then◌else◌, ℕ, Text, Result}
use pspxy.ClientTunnel.Reverse.{
  ReverseProviderPersist, ReverseConsumerPersist, effective_enabled, Error, normalize_consumer,
  validate_provider, validate_consumer,
}
use pspxy.ClientTunnel.Reverse.Manager.{
  ReverseManager, Handshake, put_provider_inactive, put_consumer_inactive,
}
use pspxy.ClientTunnel.Reverse.Manager.Start.{provider_entry, start_provider, start_consumer}

-- One round of BootstrapProviders; its errors are only logged.
unfoldable pub restore_provider :
    Handshake
    → Option Text
    → ReverseProviderPersist
    → ReverseManager
    → Text
    → Option Error
    → ReverseManager
restore_provider handshake run_err c m new_id (some e) = m
restore_provider handshake run_err c m new_id none =
    if not (effective_enabled c.enabled)
    then (put_provider_inactive c m).1
    else (start_provider handshake new_id run_err c m).1

-- `new_id` answers with the new id of an entry that has none.
unfoldable pub bootstrap_providers :
    Handshake
    → Option Text
    → (ReverseProviderPersist → Text)
    → List ReverseProviderPersist
    → ReverseManager
    → ReverseManager
unfolding restore_provider
bootstrap_providers handshake run_err new_id [] m = m
bootstrap_providers handshake run_err new_id (cfg ∷ cfgs) m =
    let c = provider_entry (new_id cfg) cfg in
    bootstrap_providers handshake run_err new_id cfgs
      (restore_provider handshake run_err c m (new_id cfg) (validate_provider c))

unfoldable pub restore_consumer :
    (Text → Result Text ℕ)
    → Option Text
    → ReverseConsumerPersist
    → ReverseManager
    → Option Error
    → ReverseManager
restore_consumer net_listen run_err c m (some e) = m
restore_consumer net_listen run_err c m none =
    if not (effective_enabled c.enabled)
    then (put_consumer_inactive c m).1
    else (start_consumer net_listen run_err c m).1

unfoldable pub bootstrap_consumers :
    (Text → Result Text ℕ)
    → Option Text
    → List ReverseConsumerPersist
    → ReverseManager
    → ReverseManager
unfolding restore_consumer
bootstrap_consumers net_listen run_err [] m = m
bootstrap_consumers net_listen run_err (cfg ∷ cfgs) m =
    let c = normalize_consumer cfg in
    bootstrap_consumers net_listen run_err cfgs
      (restore_consumer net_listen run_err c m (validate_consumer c))
