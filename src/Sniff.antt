-- ===== src/Sniff.antt =====
-- src/stream_sniff.c and src/stream_sniff.h: the passive reader of the server name in a TLS
-- ClientHello. `Reader` is the bounds-checked access to the copied bytes, `Hello` the parser,
-- `Peek` the state that a connection keeps and the log text.
pub mod Reader
pub mod Hello
pub mod Peek
mod Tests
