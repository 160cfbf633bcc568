-- ===== src/ClientTunnel/Registry/Views.antt =====
-- internal/clienttunnel/registry.go: the lists that are shown and written, and the start from the
-- configuration. The address and the message that a row shows of a running tunnel are left out.
use pspxy.Base.{ℤ, Bool, List, [], ◌∷◌, map, Option, none, some, Text, Dict, values, sort}
use pspxy.Strings.{trim_space}
use pspxy.ClientTunnel.Order.{less_port_id}
use pspxy.ClientTunnel.Tunnel.{
  Config, Error, validate, normalize_server_url_for_ws, auth_secrets_configured,
}
use pspxy.ClientTunnel.Registry.{Instance, Registry, start, effective}

-- What is shown of a configuration: whether there is a key, not the key.
pub record PublicLastConfig : Type 0 where
  pub server_url : Text
  pub proxy_id : Text
  pub local_port : ℤ
  pub access_auth_configured : Bool

pub record ProxyRow : Type 0 where
  pub id : Text
  pub running : Bool
  pub error_text : Text
  pub last_config : PublicLastConfig

unfoldable pub public_from_config : Config → PublicLastConfig
public_from_config c = record {
  server_url = normalize_server_url_for_ws (trim_space c.server_url);
  proxy_id = trim_space c.proxy_id;
  local_port = c.local_port;
  access_auth_configured = auth_secrets_configured c.api_key;
}

-- The rows are under the keys of the map.
rows : Dict Instance → List ProxyRow
unfolding public_from_config
rows [] = []
rows ((id, it) ∷ d) =
    record {
      id = id;
      running = it.tun.listening;
      error_text = it.tun.run_err;
      last_config = public_from_config it.cfg;
    }
    ∷ rows d

abbrev pub less_row : ProxyRow → ProxyRow → Bool
less_row a b = less_port_id a.last_config.local_port a.id b.last_config.local_port b.id

unfoldable pub snapshot : Registry → List ProxyRow
unfolding rows
snapshot r = sort less_row (rows r.items)

abbrev pub less_config : Config → Config → Bool
less_config a b = less_port_id a.local_port a.id b.local_port b.id

unfoldable pub persisted_configs : Registry → List Config
persisted_configs r = sort less_config (map (λ (it : Instance). it.cfg) (values r.items))

unfoldable pub boot_valid : (Config → Option Text) → Config → Registry → Option Error → Registry
boot_valid listen c r (some e) = r
boot_valid listen c r none = (start (listen c) c r).1

-- The outcome of listening is asked for each entry.
unfoldable pub bootstrap_from_configs : (Config → Option Text) → List Config → Registry → Registry
unfolding boot_valid
bootstrap_from_configs listen [] r = r
bootstrap_from_configs listen (c ∷ cs) r =
    let cc = effective c in bootstrap_from_configs listen cs (boot_valid listen cc r (validate cc))
