-- ===== src/Format.antt =====
-- lib/printfmt.c. What a function prints is the list of the arguments of its calls of `putch`.
pub mod Number
pub mod Flags
pub mod Convert
pub mod Print
pub mod Buffer
mod Tests
