-- ===== src/Tests.antt =====
-- The results at concrete inputs. `Parameters` has concrete functions for the parameters, with the
-- laws that the results assume; the others follow the program's parts.
pub mod Parameters
pub mod Strings
pub mod Config
pub mod Proxy
pub mod ReverseTunnel
pub mod Api
pub mod ClientTunnel
pub mod ClientYaml
pub mod Reverse
pub mod Client
pub mod Server
