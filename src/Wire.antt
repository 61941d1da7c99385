-- ===== src/Wire.antt =====
-- wire: the encoding of the messages of the peer-to-peer protocol.
pub mod Codec
pub mod Number
pub mod VarInt
pub mod VarIntLaws
pub mod Header
pub mod Messages
pub mod Locators
pub mod Tx
mod Tests
