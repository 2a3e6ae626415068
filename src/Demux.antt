-- ===== src/Demux.antt =====
-- pkg/demux: the router that sends each ext-proc stream to the engine of its cluster.
pub mod Server
pub mod Pools
pub mod Requests
pub mod Streams
