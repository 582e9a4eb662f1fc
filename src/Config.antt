-- ===== src/Config.antt =====
-- config.h and config.cpp: the tuning and the pid list of one tuner.
pub mod PidList
pub mod Header
pub mod State
pub mod Tuning
pub mod Request
pub mod Setters
pub mod Reading
pub mod Frame
pub mod Link
pub mod Server
