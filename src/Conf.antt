-- ===== src/Conf.antt =====
-- src/file_conf.c: the configuration file. `Address` has the parsers of endpoints, `Line` that of
-- one route with its options, `Loader` that of a whole text, and `File` that of a file.
pub mod Address
pub mod Line
pub mod Loader
pub mod File
mod Tests
