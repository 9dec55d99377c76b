-- ===== src/FuncUtil.antt =====
-- src/util/FuncUtil.cc: query strings, hexadecimal text, and the checks of names.
pub mod Query
pub mod Hex
pub mod Names
mod Tests
