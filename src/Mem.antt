-- ===== src/Mem.antt =====
-- core/src/util/mem.c: text, numbers, buffers and the memory of dictionary entries.
pub mod Number
pub mod Layout
pub mod Text
pub mod Ring
pub mod Escape
pub mod Pictured
