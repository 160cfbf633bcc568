-- ===== src/Proxy.antt =====
-- internal/proxy: the registered proxies (`Server`), the map of them (`Manager`).
pub mod Bridge
pub mod Server
pub mod Manager
