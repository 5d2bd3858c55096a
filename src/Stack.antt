-- ===== src/Stack.antt =====
-- The user-space TCP stack of protocol/tcp.
pub mod Buffer
pub mod Types
pub mod Emit
pub mod Pump
pub mod Admission
pub mod Acks
pub mod Arrived
pub mod Segment
pub mod Tick
pub mod Calls
pub mod Ports
pub mod Table
pub mod Arrival
pub mod Listening
pub mod Running
pub mod Diagram
pub mod Sender
pub mod Receiver
pub mod Transfer
