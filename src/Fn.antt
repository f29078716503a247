-- ===== src/Fn.antt =====
-- The header-only layer of include/MsgFacadeFn.hpp over the interfaces of the facade.
pub mod Handles
pub mod Names
