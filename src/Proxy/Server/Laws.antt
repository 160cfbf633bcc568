-- ===== src/Proxy/Server/Laws.antt =====
-- The invariant of one server, and when it forwards.
use pspxy.Base.{ℕ, ◌≡◌, true, false, [], none, is_some, arith}
use pspxy.Config.{ProxyConfig}
use pspxy.Proxy.Server.{
  TcpServer, is_running_status, new_tcp_server, start, stop, incr_tunnel, decr_tunnel,
  reload_config, is_running, ws_ingress_path,
}

-- What is shown agrees with the configuration; a server that runs is enabled and has a start time,
-- one that does not has none; no error is shown.
pub record IsCoherent (s : TcpServer) : Type 0 where
  pub id : s.status.id ≡ s.cfg.id
  pub name : s.status.name ≡ s.cfg.name
  pub remote_address : s.status.remote_address ≡ s.cfg.remote_address
  pub ws_path : s.status.ws_path ≡ ws_ingress_path s.cfg.id
  pub enabled : s.status.enabled ≡ s.cfg.enabled
  pub no_error : s.status.error_text ≡ []
  pub started : is_some s.status.started_at ≡ is_running_status s.status.status
  pub runs_enabled : is_running_status s.status.status ≡ true → s.cfg.enabled ≡ true

pub new_tcp_server-IsCoherent : (now : ℕ) (cfg : ProxyConfig) → IsCoherent (new_tcp_server now cfg)
unfolding new_tcp_server
new_tcp_server-IsCoherent now cfg = ground arith

pub start-IsCoherent : (now : ℕ) (s : TcpServer) → IsCoherent s → IsCoherent (start now s).1
unfolding start
start-IsCoherent now s h = ground arith

pub stop-IsCoherent : (s : TcpServer) → IsCoherent s → IsCoherent (stop s)
unfolding stop
stop-IsCoherent s h = ground arith

pub reload_config-IsCoherent :
    (now : ℕ) (cfg : ProxyConfig) (s : TcpServer)
    → cfg.id ≡ s.cfg.id
    → IsCoherent s
    → IsCoherent (reload_config now cfg s).1
unfolding reload_config
reload_config-IsCoherent now cfg s e h = ground arith

pub tunnel-IsCoherent :
    (s : TcpServer) → IsCoherent s → IsCoherent (incr_tunnel s) × IsCoherent (decr_tunnel s)
unfolding incr_tunnel decr_tunnel
tunnel-IsCoherent s h = (ground arith, ground arith)

-- A new server, a started one and a reloaded one forward exactly when their configuration is
-- enabled, whatever state they were in before; a stopped one does not forward.
pub is_running-eq-enabled :
    (now : ℕ) (cfg : ProxyConfig) (s : TcpServer)
    → (is_running (new_tcp_server now cfg) ≡ cfg.enabled)
      × (is_running (start now s).1 ≡ s.cfg.enabled)
      × (is_running (reload_config now cfg s).1 ≡ cfg.enabled)
      × (is_running (stop s) ≡ false)
unfolding is_running new_tcp_server start reload_config stop
is_running-eq-enabled now cfg s = ground arith

-- `Start` and `ReloadConfig` return no error, and keep the configuration they are given.
pub start_total :
    (now : ℕ) (cfg : ProxyConfig) (s : TcpServer)
    → ((start now s).0 ≡ none)
      × ((reload_config now cfg s).0 ≡ none)
      × ((start now s).1.cfg ≡ s.cfg)
      × ((reload_config now cfg s).1.cfg ≡ cfg)
      × ((new_tcp_server now cfg).cfg ≡ cfg)
      × ((reload_config now cfg s).1.active_tunnels ≡ s.active_tunnels)
unfolding start reload_config new_tcp_server
start_total now cfg s = ground arith
