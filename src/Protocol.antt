-- ===== src/Protocol.antt =====
-- protocol/message_types.h, protocol/messages.h and the codec of the engine.
pub mod MsgType
pub mod Message
pub mod Layout
pub mod Codec
pub mod RoundTrip
pub mod Framing
