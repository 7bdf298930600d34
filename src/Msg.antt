-- ===== src/Msg.antt =====
-- The messages of the application: msg/msg_sinf.cpp, over the messages that protobuf makes of
-- msg/proto/sinf.proto.
pub mod Value
pub mod RoundTrip
pub mod Items
pub mod Delivery
pub mod Letter
mod Tests
