-- ===== src/ReverseTunnel.antt =====
-- internal/reversetunnel: the frames between the server and a provider (`Frame`), and the broker
-- that joins consumers to providers (`Broker`, with its reading loops in `Session`).
pub mod Frame
pub mod Broker
pub mod Session
