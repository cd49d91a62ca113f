-- ===== src/Mqtt.antt =====
-- The MQTT 3.1.1 client (core/src/mqtt.rs): the packet codec, and the client over a byte stream.
pub mod Wire
pub mod Parse
pub mod Client
pub mod Delivery
pub mod RoundTrip
pub mod PacketId
pub mod Handshake
