-- ===== src/Ansi.antt =====
-- libposix/vfs/char/char_ansi.c: the control functions of an ANSI terminal.
pub mod Attribs
pub mod Cursor
pub mod Scroll
pub mod Erase
pub mod Mode
pub mod Control
