-- ===== src/Handler.antt =====
-- VM/src/emulate.c: the handlers of the instructions, and what several of them share.
pub mod Write
pub mod Move
pub mod Arith
pub mod Control
pub mod Special
pub mod Sys
