-- ===== src/Messages/Rmt.antt =====
-- src/messages/rmt_messages.c: the messages of the robot, each a struct of values, a data buffer
-- and the offsets at which the values lie in it. A float is its 32-bit pattern.
mod Fields
pub mod Velocity
pub mod PathState
pub mod Messages
pub mod Sensor
pub mod RoundTrips
