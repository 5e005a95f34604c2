-- ===== src/Images.antt =====
-- The images of the segments, as files on a volume and rows in the database:
-- backend/internal/api/images.go.
pub mod Disk
pub mod Upload
pub mod Cleaning
mod Tests
