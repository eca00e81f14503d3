-- ===== src/Modbus.antt =====
-- The Modbus library of src/examples/modbus/lib.
pub mod Common
pub mod BitArray
pub mod Message
pub mod Pdu
pub mod Loops
