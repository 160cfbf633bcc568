-- ===== src/ClientTunnel/Registry.antt =====
-- internal/clienttunnel/registry.go: the tunnels under their ids. `Start` looks for a taken port
-- before it takes the lock; the model's calls do not overlap, so this is one step.
pub mod Ports
pub mod Calls
pub mod Failure
pub mod Views
pub mod Restore
use pspxy.Base.{
  ℕ, ℤ, pos, ltb_ℤ, eqb_ℤ, Bool, true, false, not, ◌&&◌, List, [], ◌∷◌, Option, none, some,
  if◌then◌else◌, Text, codes, ◌==◌, Dict, get, put, remove, any_entry,
}
use pspxy.Strings.{trim_space, is_empty}
use pspxy.ClientTunnel.Tunnel.{
  Config, zero_config, Error, port_busy, missing_id, validate, normalize_server_url_for_ws, Tunnel,
  new_tunnel, stop_unsafe_locked, start as tunnel_start,
}

-- registryInstance
pub record Instance : Type 0 where
  pub tun : Tunnel
  pub cfg : Config

pub record Registry : Type 0 where
  pub items : Dict Instance

abbrev pub new_registry : Registry
new_registry = record { items = [] }

abbrev pub default_single_proxy_id : Text
default_single_proxy_id = codes "default"

unfoldable pub ensure_proxy_id : Text → Text
ensure_proxy_id id =
    let s = trim_space id in if not (is_empty s) then s else default_single_proxy_id

unfoldable pub trim_copy : Config → Config
trim_copy c = record {
  server_url = normalize_server_url_for_ws (trim_space c.server_url);
  proxy_id = trim_space c.proxy_id;
  api_key = trim_space c.api_key;
  id = trim_space c.id;
  local_port = c.local_port;
}

unfoldable pub local_port_busy : ℤ → Text → Registry → Bool
local_port_busy port except_id r =
    if ltb_ℤ port (pos 1)
    then false
    else any_entry (λ id it. not (id == except_id) && eqb_ℤ it.cfg.local_port port) r.items

-- The instance of an id, or a new one.
instance_of : Option Instance → Instance
instance_of none = record { tun = new_tunnel; cfg = zero_config }
instance_of (some it) = it

put_started : Config → Instance → Registry → Option Error × Tunnel → Option Error × Registry
put_started cfg it r (some e, t) =
    (some e, record { items = put r.items cfg.id (record it { tun = t }) })
put_started cfg it r (none, t) =
    (none, record { items = put r.items cfg.id (record it { tun = t; cfg = cfg }) })

pub start_valid : Option Text → Config → Registry → Option Error → Option Error × Registry
unfolding put_started instance_of local_port_busy
start_valid listen cfg r (some e) = (some e, r)
start_valid listen cfg r none =
    if local_port_busy cfg.local_port cfg.id r
    then (some (port_busy cfg.local_port), r)
    else (let it = instance_of (get r.items cfg.id) in
        put_started cfg it r (tunnel_start listen cfg it.tun))

-- The configuration that `Start` works with.
unfoldable pub effective : Config → Config
unfolding trim_copy ensure_proxy_id
effective cfg = let c = trim_copy cfg in record c { id = ensure_proxy_id c.id }

unfoldable pub start : Option Text → Config → Registry → Option Error × Registry
unfolding start_valid effective
start listen cfg r = start_valid listen (effective cfg) r (validate (effective cfg))

pub stop_found : Option Text → Text → Registry → Option Instance → Option Error × Registry
stop_found closed id r none = (none, r)
stop_found closed id r (some it) =
    let (e, t) = stop_unsafe_locked closed it.tun in
    (e, record { items = put r.items id (record it { tun = t }) })

unfoldable pub stop : Option Text → Text → Registry → Option Error × Registry
unfolding stop_found ensure_proxy_id
stop closed id r = stop_found closed (ensure_proxy_id id) r (get r.items (ensure_proxy_id id))

stopped_items : Dict Instance → Dict Instance
stopped_items [] = []
stopped_items ((id, it) ∷ rest) =
    (id, record it { tun = (stop_unsafe_locked none it.tun).1 }) ∷ stopped_items rest

unfoldable pub stop_all : Registry → Registry
unfolding stopped_items
stop_all r = record { items = stopped_items r.items }

unfoldable pub remove_id : Text → Registry → Option Error × Registry
remove_id id r =
    let s = trim_space id in
    if is_empty s then (some missing_id, r) else (none, record { items = remove r.items s })
