-- ===== src/Io/Fs.antt =====
-- src/io/fs and the data of its operations in src/io/operation/data.
pub mod Mode
pub mod OpenSettings
pub mod Stats
