-- ===== src/SocketStream.antt =====
-- `SocketStream` of civan/socket_stream.h and civan/socket_stream.cc.
pub mod Send
mod Tests
