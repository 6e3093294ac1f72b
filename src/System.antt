-- ===== src/System.antt =====
-- nc600-2.0/src/system.c: addresses as text and as words, and the write loop.
pub mod Address
pub mod Writen
