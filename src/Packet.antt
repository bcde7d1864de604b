-- ===== src/Packet.antt =====
-- src/packet.rs: the codec of raw Ethernet, IP, TCP and UDP packets, the tracker of the TCP
-- life cycle, and IP fragmentation.
pub mod Types
pub mod Bytes
pub mod Checksum
pub mod Options
pub mod Transport
pub mod Ip
pub mod Frame
pub mod TcpState
pub mod Fragment
pub mod Reassembly
