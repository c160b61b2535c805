-- ===== src/Tlv.antt =====
-- zipc/zipc_tlv.c: the wire format. An int32_t is its bit pattern, a number below 2 ^ 32, and an
-- int64_t one below 2 ^ 64.
pub mod Ty
pub mod Zigzag
pub mod Len
pub mod Len64
pub mod Value
pub mod Arrays
mod Tests
