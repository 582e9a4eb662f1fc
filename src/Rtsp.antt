-- ===== src/Rtsp.antt =====
-- rtsp.cpp and rtsp.h: the RTSP session of one tuner.
pub mod State
pub mod Timers
pub mod Parse
pub mod Send
pub mod Receive
pub mod Machine
pub mod Connect
pub mod Heard
pub mod Invariant
pub mod Steps
pub mod Backoff
pub mod Answers
pub mod Due
pub mod Linked
pub mod Passes
