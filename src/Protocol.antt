-- ===== src/Protocol.antt =====
-- slimhub/protocol/nus.py: addresses, commands, payloads, frames, and the assembler of notify chunks.
pub mod Mac
pub mod Command
pub mod Dump
pub mod Rawdata
pub mod Utf8
pub mod Frame
pub mod Assembler
