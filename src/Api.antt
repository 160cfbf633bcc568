-- ===== src/Api.antt =====
-- internal/api: the state of the handlers and their responses, access control (`Access`), the
-- handlers for the registered proxies (`Proxies`), the routes (`Routes`), and the entry of the
-- tunnels (`Ingress`).
pub mod Access
pub mod Proxies
pub mod Routes
pub mod Ingress
use pspxy.Base.{ℕ, Bool, true, false, List, Text, length}
use pspxy.Config.{ProxyConfig}
use pspxy.Config.Manager.{Manager as ConfigManager, Error as ConfigError}
use pspxy.Proxy.Manager.{Manager as ProxyManager, Error as ProxyError}
use pspxy.ReverseTunnel.Broker.{Broker}
use pspxy.Api.Access.{AuthError}
use pspxy.Proxy.Server.{ProxyStatus}

-- `Handler`; the WebSocket upgrader and the broker's store are those of the parts below. `start_at`
-- is in seconds.
pub record Handler : Type 0 where
  pub proxy_mgr : ProxyManager
  pub cfg_mgr : ConfigManager
  pub rt : Broker
  pub start_at : ℕ

-- The text under "message".
pub data Detail : Type 0 where
  binding_error : Detail
  fixed : Text → Detail
  of_config : ConfigError → Detail
  of_proxy : ProxyError → Detail
  of_auth : AuthError → Detail

-- A failure has its status code and the text under "error".
pub data Response : Type 0 where
  failure : ℕ → Text → Detail → Response
  auth_required : Bool → Response
  logged_in : Bool → Response
  listed : List ProxyStatus → Response
  created updated : ProxyConfig → Response
  found : ProxyStatus → Response
  deleted preflight : Response
  reloaded : ℕ → Response
  healthy : ℕ → ℕ → ℕ → Response

-- The status code.
abbrev pub code : Response → ℕ
code (failure n _ _) = n
code (created _) = 201
code deleted = 204
code preflight = 204
code _ = 200
