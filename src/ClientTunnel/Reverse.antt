-- ===== src/ClientTunnel/Reverse.antt =====
-- internal/clienttunnel/reverse_manager.go and the types of registry.go that it keeps: the entries
-- of the reverse tunnels as the YAML file holds them, trimmed and checked. `Hosts` says when two
-- addresses take the same port, `Manager` is the manager.
pub mod Hosts
pub mod Manager
pub mod Provider
pub mod Handshake
use pspxy.Base.{
  ℤ, pos, ltb_ℤ, Bool, true, not, ◌||◌, [], Option, none, some, if◌then◌else◌, Text, codes,
}
use pspxy.Strings.{trim_space, is_empty}
use pspxy.ClientTunnel.Tunnel.{normalize_server_url_for_ws}

pub record ReverseProviderPersist : Type 0 where
  pub id : Text
  pub server_url : Text
  pub local_host : Text
  pub local_port : ℤ
  pub api_key : Text
  pub channel_id : Text
  pub enabled : Option Bool

pub record ReverseConsumerPersist : Type 0 where
  pub id : Text
  pub listen : Text
  pub server_url : Text
  pub api_key : Text
  pub enabled : Option Bool
  pub legacy_channel_id : Text

-- An absent flag counts as true.
unfoldable pub effective_enabled : Option Bool → Bool
effective_enabled none = true
effective_enabled (some b) = b

pub data Error : Type 0 where
  server_url_required bad_local_port fields_required : Error
  consumer_listens target_taken listen_taken provider_exposed still_running : Error
  handshake_failed : Text → Error
  listen_failed : Text → Error

abbrev pub localhost : Text
localhost = codes "127.0.0.1"

-- A host after trimming, with the default for an empty one.
unfoldable pub host_or_default : Text → Text
host_or_default h = let s = trim_space h in if is_empty s then localhost else s

unfoldable pub normalize_provider : ReverseProviderPersist → ReverseProviderPersist
unfolding host_or_default
normalize_provider p = record {
  id = trim_space p.id;
  server_url = normalize_server_url_for_ws (trim_space p.server_url);
  local_host = host_or_default p.local_host;
  local_port = p.local_port;
  api_key = trim_space p.api_key;
  channel_id = trim_space p.channel_id;
  enabled = p.enabled;
}

-- The old `channel_id` of a consumer becomes its id.
unfoldable pub normalize_consumer : ReverseConsumerPersist → ReverseConsumerPersist
normalize_consumer c =
    let legacy = trim_space c.legacy_channel_id in
    record {
      id = if not (is_empty legacy) then legacy else trim_space c.id;
      listen = trim_space c.listen;
      server_url = normalize_server_url_for_ws (trim_space c.server_url);
      api_key = trim_space c.api_key;
      enabled = c.enabled;
      legacy_channel_id = [];
    }

unfoldable pub validate_provider : ReverseProviderPersist → Option Error
validate_provider p =
    if is_empty (trim_space p.server_url)
    then some server_url_required
    else if ltb_ℤ p.local_port (pos 1) || ltb_ℤ (pos 65535) p.local_port
    then some bad_local_port
    else none

unfoldable pub validate_consumer : ReverseConsumerPersist → Option Error
validate_consumer c =
    if is_empty (trim_space c.server_url) || is_empty c.listen || is_empty (trim_space c.id)
    then some fields_required
    else none
