-- ===== src/Tests.antt =====
-- Concrete inputs at which the theorems of the other modules apply.
mod Tasks
mod Usize
mod Double
mod Stack
mod Text
mod Dict
mod Exceptions
mod Compile
mod Execute
mod Io
mod Gmt
mod Messages
mod Space
mod Ring
mod Pictured
mod Escape
mod Evaluate
mod Files
