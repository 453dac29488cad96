-- ===== src/Image.antt =====
-- Package internal/image.
pub mod Name
pub mod Meta
pub mod Machine
pub mod Script
pub mod Build
pub mod Prune
