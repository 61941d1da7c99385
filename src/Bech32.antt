-- ===== src/Bech32.antt =====
-- address/bech32: strings with a checksum.
pub mod Checksum
pub mod Text
pub mod Linear
pub mod RoundTrip
pub mod Encoded
mod Tests
