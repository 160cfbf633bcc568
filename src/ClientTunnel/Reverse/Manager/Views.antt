-- ===== src/ClientTunnel/Reverse/Manager/Views.antt =====
-- internal/clienttunnel/reverse_manager.go: the lists that are shown and written.
use pspxy.Base.{
  ℤ, Bool, true, false, List, [], map, Option, none, some, is_some, if◌then◌else◌, Text, values,
  sort,
}
use pspxy.Strings.{trim_space, is_empty}
use pspxy.ClientTunnel.Order.{less_port_id, less_text_id}
use pspxy.ClientTunnel.Reverse.{ReverseProviderPersist, ReverseConsumerPersist, effective_enabled}
use pspxy.ClientTunnel.Reverse.Manager.{ProviderInst, ConsumerInst, ReverseManager}
use pspxy.ClientTunnel.Tunnel.{auth_secrets_configured}

pub record ReverseProviderRow : Type 0 where
  pub id : Text
  pub running : Bool
  pub error_text : Text
  pub channel_id : Text
  pub local_host : Text
  pub local_port : ℤ
  pub server_url : Text
  pub auth_hint_only : Bool
  pub enabled : Bool

-- The count of the open connections is left out.
pub record ReverseConsumerRow : Type 0 where
  pub id : Text
  pub running : Bool
  pub error_text : Text
  pub listen : Text
  pub server_url : Text
  pub auth_hint_only : Bool
  pub enabled : Bool

-- The error of an entry that does not run.
unfoldable pub shown_error : Bool → Option Text → Text
shown_error true e = []
shown_error false none = []
shown_error false (some e) = e

unfoldable pub snapshot_provider : ProviderInst → ReverseProviderRow
unfolding shown_error
snapshot_provider inst =
    let issued = trim_space inst.channel_id in
    record {
      id = inst.cfg.id;
      running = is_some inst.ws;
      error_text = shown_error (is_some inst.ws) inst.last_run_err;
      channel_id = if is_empty issued then trim_space inst.cfg.channel_id else issued;
      local_host = inst.cfg.local_host;
      local_port = inst.cfg.local_port;
      server_url = inst.cfg.server_url;
      auth_hint_only = auth_secrets_configured inst.cfg.api_key;
      enabled = effective_enabled inst.cfg.enabled;
    }

unfoldable pub snapshot_consumer : ConsumerInst → ReverseConsumerRow
unfolding shown_error
snapshot_consumer inst = record {
  id = inst.cfg.id;
  running = is_some inst.listener;
  error_text = shown_error (is_some inst.listener) inst.last_run_err;
  listen = inst.cfg.listen;
  server_url = inst.cfg.server_url;
  auth_hint_only = auth_secrets_configured inst.cfg.api_key;
  enabled = effective_enabled inst.cfg.enabled;
}

abbrev pub less_provider_row : ReverseProviderRow → ReverseProviderRow → Bool
less_provider_row a b = less_port_id a.local_port a.id b.local_port b.id

abbrev pub less_consumer_row : ReverseConsumerRow → ReverseConsumerRow → Bool
less_consumer_row a b = less_text_id a.listen a.id b.listen b.id

abbrev pub less_provider : ReverseProviderPersist → ReverseProviderPersist → Bool
less_provider a b = less_port_id a.local_port a.id b.local_port b.id

abbrev pub less_consumer : ReverseConsumerPersist → ReverseConsumerPersist → Bool
less_consumer a b = less_text_id a.listen a.id b.listen b.id

unfoldable pub snapshot_providers : ReverseManager → List ReverseProviderRow
unfolding snapshot_provider
snapshot_providers m = sort less_provider_row (map snapshot_provider (values m.providers))

unfoldable pub snapshot_consumers : ReverseManager → List ReverseConsumerRow
unfolding snapshot_consumer
snapshot_consumers m = sort less_consumer_row (map snapshot_consumer (values m.consumers))

unfoldable pub persisted_providers : ReverseManager → List ReverseProviderPersist
persisted_providers m =
    sort less_provider (map (λ (it : ProviderInst). it.cfg) (values m.providers))

unfoldable pub persisted_consumers : ReverseManager → List ReverseConsumerPersist
persisted_consumers m =
    sort less_consumer (map (λ (it : ConsumerInst). it.cfg) (values m.consumers))
