-- ===== src/Console.antt =====
-- kern/console.c and kern/printf.c: input and output of the console.
pub mod Buffer
pub mod Keyboard
pub mod Screen
pub mod Output
pub mod Input
pub mod Lines
mod Tests
