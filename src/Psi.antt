-- ===== src/Psi.antt =====
-- psi.h and psi.cpp: the parser that derives the ECM and EMM pids from the transport stream.
pub mod Bytes
pub mod Crc
pub mod Assembler
pub mod Descriptors
pub mod State
pub mod Recompute
pub mod Tables
pub mod Stream
pub mod Invariant
