-- ===== src/Fence.antt =====
-- Packages internal/fence and internal/run (fence.go): an effect of a run is fenced by a ref at the
-- git server, which one attempt at a time may own.
pub mod Defs
pub mod Git
pub mod Ops
pub mod Memory
pub mod Calls
pub mod Quiet
pub mod Laws
pub mod Exclusion
pub mod Settle
