-- ===== src/Proxy/Server.antt =====
-- internal/proxy/proxy.go: one registered proxy. `time.Now()` is the argument `now`; the zero time
-- is `none`. An error from `Start` is a text; `Start` never returns one.
pub mod Laws
use pspxy.Base.{
  ℕ, ◌≡◌, refl, ℤ, pos, negsuc, ◌+ℤ◌, Bool, true, false, not, ◌&&◌, ◌||◌, List, [], ◌∷◌, ◌++◌,
  Option, none, some, if◌then◌else◌, Text, codes, ◌==◌, is_some,
}
use pspxy.Strings.{is_empty}
use pspxy.Config.{ProxyConfig}

pub data Status : Type 0 where
  running stopped error : Status

abbrev pub is_running_status : Status → Bool
is_running_status running = true
is_running_status stopped = false
is_running_status error = false

pub record ProxyStatus : Type 0 where
  pub id : Text
  pub name : Text
  pub remote_address : Text
  pub ws_path : Text
  pub enabled : Bool
  pub status : Status
  pub connections : ℤ
  pub started_at : Option ℕ
  pub error_text : Text

pub record TcpServer : Type 0 where
  pub cfg : ProxyConfig
  pub status : ProxyStatus
  pub active_tunnels : ℤ

unfoldable pub ws_ingress_path : Text → Text
ws_ingress_path proxy_id = codes "/ws/" ++ proxy_id

unfoldable pub sync_status : ℕ → TcpServer → TcpServer
sync_status now s =
    let st = s.status in
    if not s.cfg.enabled
    then record s { status = record st { status = stopped; started_at = none } }
    else record s {
      status = record st {
        status = running;
        started_at = if is_some st.started_at then st.started_at else some now;
      };
    }

unfoldable pub new_tcp_server : ℕ → ProxyConfig → TcpServer
unfolding sync_status ws_ingress_path
new_tcp_server now cfg = sync_status now (record {
  cfg = cfg;
  status = record {
    id = cfg.id;
    name = cfg.name;
    remote_address = cfg.remote_address;
    ws_path = ws_ingress_path cfg.id;
    enabled = cfg.enabled;
    status = stopped;
    connections = pos 0;
    started_at = none;
    error_text = [];
  };
  active_tunnels = pos 0;
})

-- The result is nil or the error, and the server.
unfoldable pub apply_start : Bool → ℕ → TcpServer → Option Text × TcpServer
apply_start reload now s =
    let st = s.status in
    if not s.cfg.enabled
    then (
      none,
      record s { status = record st { status = stopped; error_text = []; started_at = none } },
    )
    else (
      none,
      record s {
        status = record st {
          status = running;
          error_text = [];
          started_at =
              if not reload || not (is_some st.started_at) then some now else st.started_at;
        };
      },
    )

unfoldable pub start : ℕ → TcpServer → Option Text × TcpServer
unfolding apply_start
start now s = apply_start false now s

unfoldable pub stop : TcpServer → TcpServer
stop s =
    let st = s.status in record s { status = record st { status = stopped; started_at = none } }

unfoldable pub incr_tunnel : TcpServer → TcpServer
incr_tunnel s = record s { active_tunnels = s.active_tunnels +ℤ pos 1 }

unfoldable pub decr_tunnel : TcpServer → TcpServer
decr_tunnel s = record s { active_tunnels = s.active_tunnels +ℤ negsuc 0 }

unfoldable pub reload_config : ℕ → ProxyConfig → TcpServer → Option Text × TcpServer
unfolding apply_start ws_ingress_path
reload_config now cfg s =
    let st = s.status in
    let shown : ProxyStatus = record st {
      name = cfg.name;
      remote_address = cfg.remote_address;
      enabled = cfg.enabled;
      ws_path = ws_ingress_path cfg.id;
    } in
    if cfg.enabled then apply_start true now (record s { cfg = cfg; status = shown }) else (
      none,
      record s {
        cfg = cfg;
        status = record shown { status = stopped; started_at = none; error_text = [] };
      },
    )

unfoldable pub status_info : TcpServer → ProxyStatus
unfolding ws_ingress_path
status_info s =
    let st = s.status in
    record st {
      ws_path = ws_ingress_path s.cfg.id;
      remote_address = s.cfg.remote_address;
      enabled = s.cfg.enabled;
      connections = s.active_tunnels;
    }

unfoldable pub is_running : TcpServer → Bool
is_running s = s.cfg.enabled && is_running_status s.status.status && is_empty s.status.error_text
