-- ===== src/Buffer.antt =====
-- src/buffer.c and include/buffer.h: the editable document.
pub mod State
pub mod Window
pub mod Returns
pub mod Safe
pub mod Cursors
pub mod Find
pub mod Full
pub mod Joining
pub mod Edit
pub mod File
pub mod Document
pub mod Splitting
pub mod Freed
pub mod Merging
pub mod Created
pub mod Serial
pub mod Runs
pub mod Examples
