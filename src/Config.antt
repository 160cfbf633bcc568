-- ===== src/Config.antt =====
-- internal/config: the server's configuration. `Manager` keeps it in memory and in a YAML file,
-- `AccessAuth` reads the keys for access.
pub mod Watcher
pub mod AccessAuth
pub mod Manager
use pspxy.Base.{ℤ, Bool, List, Text}

-- ProxyConfig
pub record ProxyConfig : Type 0 where
  pub id : Text
  pub name : Text
  pub remote_address : Text
  pub enabled : Bool

pub record ServerConfig : Type 0 where
  pub port : ℤ
  pub static_dir : Text
  pub auth : AccessAuth.AccessAuth

pub record Config : Type 0 where
  pub proxies : List ProxyConfig
  pub server : ServerConfig
