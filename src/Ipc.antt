-- ===== src/Ipc.antt =====
-- zipc/zipc_parse.c and zipc/zipc_server.c: messages between processes, and the components that
-- answer them.
pub mod Comp
pub mod Header
pub mod Request
pub mod Link
pub mod Pool
pub mod EventOut
pub mod Server
pub mod Kernel
pub mod Tests
