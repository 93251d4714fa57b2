-- ===== src/Buffer/Splitting.antt =====
-- bcursor_insert_line of src/buffer.c: a line between two others, and a line split in two.
pub mod Rewired
pub mod Linking
pub mod Lines
pub mod Trimming
pub mod Made
pub mod Placed
pub mod Before
pub mod Cut
pub mod After
pub mod Saved
