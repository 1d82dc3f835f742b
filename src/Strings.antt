-- ===== src/Strings.antt =====
-- lib/string.c. A `char *` is the list of the bytes from it to the end of its object; a read or a
-- write past the end has no result. The block operations work on a memory of numbered bytes.
pub mod Scan
pub mod Copy
pub mod Compare
pub mod Memory
pub mod Fill
pub mod Portable
pub mod Number
mod Tests
