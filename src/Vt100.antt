-- ===== src/Vt100.antt =====
-- libposix/vfs/char/char_vt100.c: the private modes and character sets of a DEC terminal.
use minc.Prelude.{ℕ, Bool, true, false, Option, none, some, bit_and, bit_or, ◌==◌, if◌then◌else◌}
use minc.Console.{
  ScreenInfo, Console, Terminal, set_console_mode, set_cursor_info, set_output_cp, issue,
}

abbrev pub enable_wrap_at_eol_output : ℕ
enable_wrap_at_eol_output = 0x2

abbrev pub cp_utf8 : ℕ
cp_utf8 = 65001

-- What follows GetConsoleMode in DECSetMode.
unfoldable pub dec_set_mode_from : Console → ℕ → Option ℕ → Terminal → Bool × Terminal
unfolding issue
dec_set_mode_from c arg none t = (false, t)
dec_set_mode_from c arg (some mode) t =
    if arg == 4
    then (true, record t { scroll_rate = 1 })
    else if arg == 7
    then issue c (set_console_mode (bit_or mode enable_wrap_at_eol_output)) t
    else if arg == 25
    then issue c (set_cursor_info 100 true) t
    else if arg == 1000
    then (true, t)
    else if arg == 2004
    then (true, t)
    else (false, t)

-- DECSetMode
unfoldable pub dec_set_mode : Console → ℕ → Terminal → Bool × Terminal
dec_set_mode c arg t = dec_set_mode_from c arg (c.console_mode t.calls) t

unfoldable pub dec_reset_mode_from : Console → ℕ → Option ℕ → Terminal → Bool × Terminal
unfolding issue
dec_reset_mode_from c arg none t = (false, t)
dec_reset_mode_from c arg (some mode) t =
    if arg == 4
    then (true, record t { scroll_rate = 6 })
    else if arg == 7
    then issue c (set_console_mode (bit_and mode 0xFFFFFFFD)) t
    else if arg == 12
    then issue c (set_cursor_info 100 true) t
    else if arg == 25
    then issue c (set_cursor_info 100 false) t
    else if arg == 1000
    then (true, t)
    else if arg == 2004
    then (true, t)
    else (false, t)

-- DECResetMode
unfoldable pub dec_reset_mode : Console → ℕ → Terminal → Bool × Terminal
dec_reset_mode c arg t = dec_reset_mode_from c arg (c.console_mode t.calls) t

-- DECSelectCharacterSet
unfoldable pub select_character_set : Console → ℕ → Terminal → Bool × Terminal
unfolding issue
select_character_set c b t =
    if b == b'A'
    then issue c (set_output_cp 850) t
    else if b == b'B'
    then issue c (set_output_cp 437) t
    else if b == b'K'
    then issue c (set_output_cp c.oem_cp) t
    else if b == b'U'
    then issue c (set_output_cp 437) t
    else if b == b'0'
    then issue c (set_output_cp 437) t
    else if b == b'1'
    then issue c (set_output_cp c.acp) t
    else if b == b'2'
    then issue c (set_output_cp c.oem_cp) t
    else (false, t)

-- DECResetCharacterSet
unfoldable pub reset_character_set : Console → ℕ → Terminal → Bool × Terminal
unfolding issue
reset_character_set c b t =
    if b == b'A'
    then issue c (set_output_cp cp_utf8) t
    else if b == b'B'
    then issue c (set_output_cp 1252) t
    else if b == b'K'
    then issue c (set_output_cp c.acp) t
    else if b == b'U'
    then issue c (set_output_cp cp_utf8) t
    else (false, t)

-- A successful GetConsoleScreenBufferInfo fills Info; a failed one leaves it.
unfoldable pub load_info : Option ScreenInfo → Terminal → Bool × Terminal
load_info none t = (false, t)
load_info (some info) t = (true, record t { info = info })

-- DECRestorePresentationState
unfoldable pub restore_presentation_state : Console → ℕ → Terminal → Bool × Terminal
restore_presentation_state c arg t =
    if arg == 1 then load_info (c.screen_info t.calls) t else (false, t)
