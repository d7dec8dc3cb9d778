-- ===== src/Ansi/Control.antt =====
-- libposix/vfs/char/char_ansi.c, AnsiControl: the function that the last byte of a control
-- sequence names, with the parameters of the sequence.
use minc.Prelude.{ℕ, Bool, true, drop, ◌==◌, if◌then◌else◌}
use minc.Prelude.Int.{ℤ}
use minc.Prelude.Words.{to_word, to_short, to_dword}
use minc.Console.{Console, Terminal}
use minc.Ansi.Attribs.{select_graphic_rendition}
use minc.Ansi.Cursor.{
  str_to_int, cursor_up, cursor_down, cursor_forward, cursor_back, cursor_position, next_page,
  cursor_horizontal_absolute, vertical_position_absolute, save_cursor, restore_cursor,
  device_status_report, device_attributes,
}
use minc.Ansi.Scroll.{
  scroll_down, scroll_up, delete_character, insert_character, insert_line, delete_line,
}
use minc.Ansi.Erase.{erase_character, erase_in_display, erase_in_line}
use minc.Ansi.Mode.{set_mode, reset_mode, vertical_editing_mode, set_top_bottom_margin}

-- AnsiStrToInt(Seq->Args)
unfoldable pub argument : Terminal → ℤ
argument t = str_to_int (drop t.seq.args t.seq.buf)

-- AnsiControl for the byte `b` and a sequence of `n` bytes. A number is converted to the type of
-- the parameter that takes it.
unfoldable pub control : Console → ℕ → ℕ → Terminal → Bool × Terminal
control c b n t =
    if b == b'@'
    then insert_character c (to_word (argument t)) t
    else if b == b'A'
    then cursor_up c (to_word (argument t)) t
    else if b == b'B'
    then cursor_down c (to_word (argument t)) t
    else if b == b'C'
    then cursor_forward c (to_word (argument t)) t
    else if b == b'D'
    then cursor_back c (to_word (argument t)) t
    else if b == b'G'
    then cursor_horizontal_absolute c (to_short (argument t)) t
    else if b == b'H'
    then cursor_position c (to_word t.seq.arg1) (to_word (argument t)) t
    else if b == b'J'
    then erase_in_display c t.seq.char1 t
    else if b == b'K'
    then erase_in_line c t.seq.char1 t
    else if b == b'L'
    then insert_line c (to_word (argument t)) t
    else if b == b'M'
    then delete_line c (to_word (argument t)) t
    else if b == b'P'
    then delete_character c (to_word (argument t)) t
    else if b == b'S'
    then scroll_up c (to_word (argument t)) t
    else if b == b'T'
    then scroll_down c (to_word (argument t)) t
    else if b == b'U'
    then next_page c (to_word (argument t)) t
    else if b == b'X'
    then erase_character c (to_dword (argument t)) t
    else if b == b'b'
    then vertical_editing_mode (to_short (argument t)) t
    else if b == b'c'
    then device_attributes t
    else if b == b'd'
    then vertical_position_absolute c (to_short (argument t)) t
    else if b == b'f'
    then cursor_position c (to_word t.seq.arg1) (to_word (argument t)) t
    else if b == b'h'
    then set_mode c (to_word t.seq.arg1) t
    else if b == b'l'
    then reset_mode c (to_word t.seq.arg1) t
    else if b == b'm'
    then select_graphic_rendition c n t
    else if b == b'n'
    then device_status_report t.seq.char1 t
    else if b == b'r'
    then set_top_bottom_margin c (to_word t.seq.arg1) (to_word (argument t)) t
    else if b == b's'
    then save_cursor t
    else if b == b'u'
    then restore_cursor c t
    else (true, t)
