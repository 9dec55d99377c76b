-- ===== src/Modbus.antt =====
-- src/modbus: the Modbus RTU master of the agent.
pub mod Crc
pub mod Frame
pub mod Receive
pub mod Mapped
pub mod OperationProcessor
mod Tests
