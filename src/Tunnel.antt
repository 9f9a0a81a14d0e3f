-- ===== src/Tunnel.antt =====
-- share/tunnel: the inbound and outbound ends of the tunnel.
pub mod Bind
pub mod Proxy
pub mod Outbound
pub mod Pair
pub mod Streams
pub mod PipeRemote
pub mod Running
pub mod UdpHandler
pub mod WaitGroup
pub mod Connection
pub mod UdpListener
mod Examples
