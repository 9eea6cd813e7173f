-- ===== src/Channel.antt =====
-- src/channel.cc and src/channel.h: the queue of slots, the pool of packet buffers, the calls and the
-- transmit loop of the realtime channel, the plain channel, and what both receive.
pub mod RingQueue
pub mod PacketPool
pub mod Realtime
pub mod Udp
pub mod Receiving
