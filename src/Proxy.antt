-- ===== src/Proxy.antt =====
-- core/proxy: the relay of one connection, and the acceptor in front of it.
pub mod Session
pub mod TcpProxy
