-- ===== src/Proxy/Manager.antt =====
-- internal/proxy/manager.go: the map from ids to running proxies. Each method holds the lock to its
-- end, so it is one step. The map holds pointers, the model values: a server that leaves the map
-- while tunnels are open on it is not followed any more.
pub mod Invariant
pub mod Sync
pub mod Views
pub mod Refinement
pub mod Calls
use pspxy.Base.{
  ℕ, ◌≡◌, refl, ℤ, pos, Bool, true, false, not, ◌&&◌, ◌||◌, List, [], ◌∷◌, ◌++◌, Option, none, some,
  if◌then◌else◌, Text, codes, ◌==◌, is_some, Dict, get, put, remove, values, keep_keys, any, Result,
  ok, err, map,
}
use pspxy.Config.{ProxyConfig}
use pspxy.Proxy.Server.{
  TcpServer, ProxyStatus, new_tcp_server, start, stop, reload_config, status_info,
}

pub record Manager : Type 0 where
  pub servers : Dict TcpServer

pub data Error : Type 0 where
  already_exists not_found : Text → Error
  start_failed : Text → Error

abbrev pub Outcome : Type 0
Outcome = Option Error

abbrev pub new_manager : Manager
new_manager = record { servers = [] }

pub set_server : Text → TcpServer → Manager → Manager
set_server id s m = record { servers = put m.servers id s }

-- `s.Start()` behind the test `cfg.Enabled`; the server starts in place.
pub start_if : Bool → ℕ → TcpServer → Option Text × TcpServer
start_if enabled now s = if enabled then start now s else (none, s)

add_started : Text → Manager → Option Text × TcpServer → Outcome × Manager
unfolding set_server
add_started id m (some e, s) = (some (start_failed e), m)
add_started id m (none, s) = (none, set_server id s m)

unfoldable pub add_proxy : ℕ → ProxyConfig → Manager → Outcome × Manager
unfolding add_started start_if
add_proxy now cfg m =
    if is_some (get m.servers cfg.id)
    then (some (already_exists cfg.id), m)
    else add_started cfg.id m (start_if cfg.enabled now (new_tcp_server now cfg))

-- The loop of `StartAll`: an error is logged and the loop goes on.
unfoldable pub start_all : ℕ → List ProxyConfig → Manager → Manager
start_all now [] m = m
start_all now (pc ∷ pcs) m = start_all now pcs (add_proxy now pc m).1

unfoldable pub stop_all : Manager → Manager
stop_all m = record { servers = [] }

remove_found : Text → Manager → Option TcpServer → Outcome × Manager
remove_found id m none = (some (not_found id), m)
remove_found id m (some s) = (none, record { servers = remove m.servers id })

unfoldable pub remove_proxy : Text → Manager → Outcome × Manager
unfolding remove_found
remove_proxy id m = remove_found id m (get m.servers id)

-- `old` is stopped already; if the new server does not start it comes back.
update_started : ℕ → Text → TcpServer → Manager → Option Text × TcpServer → Outcome × Manager
unfolding set_server start_if
update_started now id old m (some e, s) =
    (some (start_failed e), set_server id (start_if old.cfg.enabled now old).1 m)
update_started now id old m (none, s) = (none, set_server id s m)

update_found : ℕ → Text → ProxyConfig → Manager → Option TcpServer → Outcome × Manager
unfolding update_started start_if
update_found now id cfg m none = (some (not_found id), m)
update_found now id cfg m (some old) =
    update_started now id (stop old) m (start_if cfg.enabled now (new_tcp_server now cfg))

unfoldable pub update_proxy : ℕ → Text → ProxyConfig → Manager → Outcome × Manager
unfolding update_found
update_proxy now id cfg m = update_found now id cfg m (get m.servers id)

unfoldable pub get_all_status : Manager → List ProxyStatus
get_all_status m = map status_info (values m.servers)

status_of : Text → Option TcpServer → Result Error ProxyStatus
status_of id none = err (not_found id)
status_of id (some s) = ok (status_info s)

unfoldable pub get_status : Text → Manager → Result Error ProxyStatus
unfolding status_of
get_status id m = status_of id (get m.servers id)

tunnel_server_of : Text → Option TcpServer → Result Error TcpServer
tunnel_server_of id none = err (not_found id)
tunnel_server_of id (some s) = ok s

unfoldable pub get_tunnel_server : Text → Manager → Result Error TcpServer
unfolding tunnel_server_of
get_tunnel_server id m = tunnel_server_of id (get m.servers id)

-- `continue` on an error leaves in the map what stands there; `kept` is that.
sync_started : Text → Manager → Manager → Option Text × TcpServer → Manager
unfolding set_server
sync_started id kept m (some e, s) = kept
sync_started id kept m (none, s) = set_server id s m

bool_eq : Bool → Bool → Bool
bool_eq true b = b
bool_eq false b = not b

unfoldable pub has_changed : ProxyConfig → ProxyConfig → Bool
unfolding bool_eq
has_changed old pc =
    not (bool_eq old.enabled pc.enabled)
    || not (old.remote_address == pc.remote_address)
    || not (old.name == pc.name)

sync_found : ℕ → ProxyConfig → Manager → Option TcpServer → Manager
unfolding sync_started start_if set_server has_changed
sync_found now pc m none = sync_started pc.id m m (start_if pc.enabled now (new_tcp_server now pc))
sync_found now pc m (some s) =
    if has_changed s.cfg pc
    then sync_started pc.id (set_server pc.id (stop s) m) m
        (start_if pc.enabled now (new_tcp_server now pc))
    else set_server pc.id (reload_config now pc s).1 m

-- The first loop of `SyncWithConfig`.
unfoldable pub sync_loop : ℕ → List ProxyConfig → Manager → Manager
unfolding sync_found
sync_loop now [] m = m
sync_loop now (pc ∷ pcs) m = sync_loop now pcs (sync_found now pc m (get m.servers pc.id))

unfoldable pub is_active : List ProxyConfig → Text → Bool
is_active pcs id = any (λ pc. pc.id == id) pcs

-- The second loop deletes the servers whose id is not active.
unfoldable pub sync_with_config : ℕ → List ProxyConfig → Manager → Manager
unfolding sync_loop is_active
sync_with_config now pcs m =
    let m' = sync_loop now pcs m in record { servers = keep_keys (is_active pcs) m'.servers }
