-- ===== src/FileManager.antt =====
-- The transfers of the file manager (web/filemanager): the sizes of chunks, the byte range of a
-- download and the sessions of uploads. An int64 is an ℤ.
pub mod Sizes
pub mod Tiling
pub mod Previews
pub mod Uploads
mod Tests
