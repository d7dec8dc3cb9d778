-- ===== src/Screen/Write/Frame.antt =====
-- What the control functions leave alone: the state of the escape sequence parser.
mod Base
mod Functions
pub use minc.Screen.Write.Frame.Base.{Keeps}
pub use minc.Screen.Write.Frame.Functions.{cursor_back-Kept}
use minc.Prelude.{
  ℕ, ◌≡◌, refl, Bool, true, false, List, take, ◌==◌, Option, none, some, arith, if◌then◌else◌,
}
use minc.Prelude.Int.{ℤ, pos, ltb_ℤ, ◌-ℤ◌, ◌+ℤ◌}
use minc.Prelude.Words.{eq_ℤ, to_short, to_word, to_dword}
use minc.Console.{
  Console, Call, Coord, SmallRect, ScreenInfo, Terminal, issue, move_cursor, write_file,
}
use minc.Ansi.Attribs.{select_graphic_rendition, render_loop}
use minc.Ansi.Cursor.{
  cursor_up, cursor_down, cursor_forward, cursor_back, cursor_position, next_page,
  cursor_horizontal_absolute, vertical_position_absolute, save_cursor, restore_cursor,
  device_status_report, device_attributes,
}
use minc.Ansi.Scroll.{
  scroll_down, scroll_up, delete_character, insert_character, insert_line, delete_line,
}
use minc.Ansi.Erase.{fill, erase_character, erase_in_display, erase_in_line}
use minc.Ansi.Mode.{
  set_mode, set_mode_from, reset_mode, reset_mode_from, vertical_editing_mode, render_margin,
  set_top_bottom_margin,
}
use minc.Ansi.Control.{argument, control}
use minc.Vt100.{
  dec_set_mode_from, dec_reset_mode_from, dec_set_mode, dec_reset_mode, select_character_set,
  reset_character_set, load_info, restore_presentation_state,
}
use minc.Screen.{
  render_window_from, render_window, carriage_return, line_feed, put_string, screen_scroll_up,
}
use minc.Screen.Write.{dispatch}
use minc.Screen.Write.Frame.Base.{
  Kept, Kept-if, Kept-same, Keeps-refl, Keeps-trans, move_cursor-Kept, issue-Kept,
}
use minc.Screen.Write.Frame.Functions.{
  cursor_up-Kept, cursor_down-Kept, cursor_forward-Kept, cursor_position-Kept, next_page-Kept,
  cursor_horizontal_absolute-Kept, vertical_position_absolute-Kept, save_cursor-Kept,
  restore_cursor-Kept, device_attributes-Kept, scroll_down-Kept, scroll_up-Kept,
  delete_character-Kept, insert_character-Kept, insert_line-Kept, delete_line-Kept,
  erase_character-Kept, Kept-refl, erase_in_line-Kept, erase_in_display-Kept,
  vertical_editing_mode-Kept, set_mode-Kept, reset_mode-Kept, set_top_bottom_margin-Kept,
  device_status_report-Kept, move_info-Kept, Kept-trans, select_graphic_rendition-Kept,
}

-- No control function touches the parser.
control-Kept : (c : Console) (b n : ℕ) (t : Terminal) → Kept t (control c b n t)
unfolding control
control-Kept c b n t = Kept-if (b == b'@') (insert_character-Kept c (to_word (argument t)) t) (
    Kept-if (b == b'A') (cursor_up-Kept c (to_word (argument t)) t) (
      Kept-if (b == b'B') (cursor_down-Kept c (to_word (argument t)) t) (
        Kept-if (b == b'C') (cursor_forward-Kept c (to_word (argument t)) t) (
          Kept-if (b == b'D') (cursor_back-Kept c (to_word (argument t)) t) (
            Kept-if (b == b'G') (cursor_horizontal_absolute-Kept c (to_short (argument t)) t) (
              Kept-if (b == b'H')
                (cursor_position-Kept c (to_word t.seq.arg1) (to_word (argument t)) t)
                (Kept-if (b == b'J') (erase_in_display-Kept c t.seq.char1 t) (
                  Kept-if (b == b'K') (erase_in_line-Kept c t.seq.char1 t) (
                    Kept-if (b == b'L') (insert_line-Kept c (to_word (argument t)) t) (
                      Kept-if (b == b'M') (delete_line-Kept c (to_word (argument t)) t) (
                        Kept-if (b == b'P') (delete_character-Kept c (to_word (argument t)) t) (
                          Kept-if (b == b'S') (scroll_up-Kept c (to_word (argument t)) t) (
                            Kept-if (b == b'T') (scroll_down-Kept c (to_word (argument t)) t) (
                              Kept-if (b == b'U') (next_page-Kept c (to_word (argument t)) t) (
                                Kept-if (b == b'X')
                                  (erase_character-Kept c (to_dword (argument t)) t)
                                  (Kept-if (b == b'b')
                                    (vertical_editing_mode-Kept (to_short (argument t)) t)
                                    (Kept-if (b == b'c') (device_attributes-Kept t) (
                                      Kept-if (b == b'd')
                                        (vertical_position_absolute-Kept c (to_short (argument t))
                                          t)
                                        (Kept-if (b == b'f')
                                          (cursor_position-Kept c (to_word t.seq.arg1)
                                            (to_word (argument t)) t)
                                          (Kept-if (b == b'h')
                                            (set_mode-Kept c (to_word t.seq.arg1) t)
                                            (Kept-if (b == b'l')
                                              (reset_mode-Kept c (to_word t.seq.arg1) t)
                                              (Kept-if (b == b'm')
                                                (select_graphic_rendition-Kept c n t)
                                                (Kept-if (b == b'n')
                                                  (device_status_report-Kept t.seq.char1 t)
                                                  (Kept-if (b == b'r')
                                                    (set_top_bottom_margin-Kept c
                                                      (to_word t.seq.arg1) (to_word (argument t)) t)
                                                    (Kept-if (b == b's') (save_cursor-Kept t) (
                                                      Kept-if (b == b'u') (restore_cursor-Kept c t)
                                                        (Kept-refl true t)))))))))))))))))))))))))))

dec_set_mode_from-Kept :
    (c : Console) (n : ℕ) (m : Option ℕ) (t : Terminal) → Kept t (dec_set_mode_from c n m t)
unfolding dec_set_mode_from
dec_set_mode_from-Kept c n m t = ground arith

dec_reset_mode_from-Kept :
    (c : Console) (n : ℕ) (m : Option ℕ) (t : Terminal) → Kept t (dec_reset_mode_from c n m t)
unfolding dec_reset_mode_from
dec_reset_mode_from-Kept c n m t = ground arith

dec_set_mode-Kept : (c : Console) (n : ℕ) (t : Terminal) → Kept t (dec_set_mode c n t)
unfolding dec_set_mode
dec_set_mode-Kept c n t = dec_set_mode_from-Kept c n (c.console_mode t.calls) t

dec_reset_mode-Kept : (c : Console) (n : ℕ) (t : Terminal) → Kept t (dec_reset_mode c n t)
unfolding dec_reset_mode
dec_reset_mode-Kept c n t = dec_reset_mode_from-Kept c n (c.console_mode t.calls) t

select_character_set-Kept :
    (c : Console) (b : ℕ) (t : Terminal) → Kept t (select_character_set c b t)
unfolding select_character_set
select_character_set-Kept c b t = ground arith

reset_character_set-Kept : (c : Console) (b : ℕ) (t : Terminal) → Kept t (reset_character_set c b t)
unfolding reset_character_set
reset_character_set-Kept c b t = ground arith

load_info-Kept : (o : Option ScreenInfo) (t : Terminal) → Kept t (load_info o t)
unfolding load_info
load_info-Kept none t = Kept-refl false t
load_info-Kept (some info) t = ground arith

restore_presentation_state-Kept :
    (c : Console) (n : ℕ) (t : Terminal) → Kept t (restore_presentation_state c n t)
unfolding restore_presentation_state
restore_presentation_state-Kept c n t =
    Kept-if _ (load_info-Kept (c.screen_info t.calls) t) (Kept-refl false t)

-- No function that an escape sequence can call touches the parser.
pub dispatch-Kept : (c : Console) (b n : ℕ) (t : Terminal) → Kept t (dispatch c b n t)
unfolding dispatch
dispatch-Kept c b n t = Kept-if (t.seq.csi == b'[') (control-Kept c b n t) (
    Kept-if (t.seq.csi == b'?')
      (Kept-if (b == b'h') (dec_set_mode-Kept c (to_word (argument t)) t) (
        Kept-if (b == b'l') (dec_reset_mode-Kept c (to_word (argument t)) t) (
          Kept-if (b == b'u') (restore_presentation_state-Kept c (to_word (argument t)) t)
            (Kept-refl false t))))
      (Kept-if (t.seq.csi == 0)
        (Kept-if (b == b'7') (save_cursor-Kept t)
          (Kept-if (b == b'8') (restore_cursor-Kept c t) (Kept-refl false t)))
        (Kept-if (t.seq.csi == b'(') (select_character_set-Kept c b t)
          (Kept-if (t.seq.csi == b')') (reset_character_set-Kept c b t) (Kept-refl false t)))))

render_window_from-Kept : (o : Option ScreenInfo) (t : Terminal) → Kept t (render_window_from o t)
unfolding render_window_from
render_window_from-Kept none t = Kept-refl false t
render_window_from-Kept (some info) t = Kept-same refl refl refl refl

pub render_window-Kept : (c : Console) (t : Terminal) → Kept t (render_window c t)
unfolding render_window
render_window-Kept c t = render_window_from-Kept (c.screen_info t.calls) t

-- Nor does text, a line feed or a carriage return.
pub put_string-Keeps : (c : Console) (s : List ℕ) (t : Terminal) → Keeps t (put_string c s t)
unfolding put_string
put_string-Keeps c s t =
    ground (arith, issue-Kept c (write_file s) t, render_window-Kept c (issue c (write_file s) t).1)

pub carriage_return-Kept : (c : Console) (n : ℕ) (t : Terminal) → Kept t (carriage_return c n t)
unfolding carriage_return
carriage_return-Kept c n t = Kept-same refl refl refl refl

screen_scroll_up-Kept : (c : Console) (t : Terminal) → Kept t (screen_scroll_up c t)
unfolding screen_scroll_up
screen_scroll_up-Kept c t = Kept-same refl refl refl refl

pub line_feed-Kept : (c : Console) (n : ℕ) (t : Terminal) → Kept t (line_feed c n t)
unfolding line_feed
line_feed-Kept c n t =
    Kept-if (ltb_ℤ t.info.cursor_position.y t.info.window.bottom) (move_cursor-Kept c _ t) (
      Kept-if t.v_edit (Kept-trans (scroll_up-Kept c 1 t).keeps (move_cursor-Kept c _ _)) (
        Kept-if (eq_ℤ t.info.cursor_position.y (to_short (t.info.size.y -ℤ pos 1)))
          (Kept-trans (screen_scroll_up-Kept c t).keeps (move_cursor-Kept c _ _))
          (move_info-Kept c _
            (record t.info {
              window = record t.info.window {
                top = to_short (t.info.window.top +ℤ pos 1);
                bottom = to_short (t.info.window.bottom +ℤ pos 1);
              };
            })
            t)))
