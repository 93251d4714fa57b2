-- ===== src/Buffer/Merging.antt =====
-- bcursor_del of src/buffer.c with the cursor at the start of its line: the line is joined to the one
-- before.
pub mod Removed
pub mod Among
pub mod Lines
pub mod Extending
pub mod Deleting
pub mod Saved
pub mod Arriving
pub mod Appending
pub mod Following
pub mod Joined
