-- ===== src/Esp.antt =====
-- src/esp: the texts of the sensor framework.
pub mod StringUtils
pub mod Tokenizer
mod Tests
