-- ===== src/Screen/Write/Frame/Functions.antt =====
-- The functions of the terminal leave the parser alone.
use minc.Prelude.{ℕ, refl, Bool, true, take, Option, none, some, arith, if◌then◌else◌}
use minc.Prelude.Int.{ℤ, pos}
use minc.Console.{Console, Call, Coord, SmallRect, ScreenInfo, Terminal, issue, move_cursor}
use minc.Ansi.Attribs.{select_graphic_rendition, render_loop}
use minc.Ansi.Cursor.{
  cursor_up, cursor_down, cursor_forward, cursor_back, cursor_position, next_page,
  cursor_horizontal_absolute, vertical_position_absolute, save_cursor, restore_cursor,
  device_status_report, device_attributes,
}
use minc.Ansi.Scroll.{
  scroll_down, scroll_up, delete_character, insert_character, insert_line, delete_line,
}
use minc.Ansi.Erase.{fill, erase_character, erase_in_display, erase_in_line}
use minc.Ansi.Mode.{
  set_mode, set_mode_from, reset_mode, reset_mode_from, vertical_editing_mode, render_margin,
  set_top_bottom_margin,
}
use minc.Screen.Write.Frame.Base.{Keeps, Kept, Kept-if, Kept-same, Keeps-refl, Keeps-trans}

fill-Kept : (c : Console) (w size : ℕ) (p : Coord) (t : Terminal) → Kept t (fill c w size p t)
unfolding fill
fill-Kept c w size p t = Kept-same refl refl refl refl

pub cursor_up-Kept : (c : Console) (n : ℕ) (t : Terminal) → Kept t (cursor_up c n t)
unfolding cursor_up
cursor_up-Kept c n t = Kept-same refl refl refl refl

pub cursor_down-Kept : (c : Console) (n : ℕ) (t : Terminal) → Kept t (cursor_down c n t)
unfolding cursor_down
cursor_down-Kept c n t = Kept-same refl refl refl refl

pub cursor_forward-Kept : (c : Console) (n : ℕ) (t : Terminal) → Kept t (cursor_forward c n t)
unfolding cursor_forward
cursor_forward-Kept c n t = Kept-same refl refl refl refl

pub cursor_back-Kept : (c : Console) (n : ℕ) (t : Terminal) → Kept t (cursor_back c n t)
unfolding cursor_back
cursor_back-Kept c n t = Kept-same refl refl refl refl

pub cursor_position-Kept :
    (c : Console) (row column : ℕ) (t : Terminal) → Kept t (cursor_position c row column t)
unfolding cursor_position
cursor_position-Kept c row column t = Kept-same refl refl refl refl

pub next_page-Kept : (c : Console) (n : ℕ) (t : Terminal) → Kept t (next_page c n t)
unfolding next_page
next_page-Kept c n t = Kept-same refl refl refl refl

pub cursor_horizontal_absolute-Kept :
    (c : Console) (z : ℤ) (t : Terminal) → Kept t (cursor_horizontal_absolute c z t)
unfolding cursor_horizontal_absolute
cursor_horizontal_absolute-Kept c z t = Kept-same refl refl refl refl

pub vertical_position_absolute-Kept :
    (c : Console) (z : ℤ) (t : Terminal) → Kept t (vertical_position_absolute c z t)
unfolding vertical_position_absolute
vertical_position_absolute-Kept c z t = Kept-same refl refl refl refl

pub save_cursor-Kept : (t : Terminal) → Kept t (save_cursor t)
unfolding save_cursor
save_cursor-Kept t = Kept-same refl refl refl refl

pub restore_cursor-Kept : (c : Console) (t : Terminal) → Kept t (restore_cursor c t)
unfolding restore_cursor
restore_cursor-Kept c t = Kept-same refl refl refl refl

pub device_attributes-Kept : (t : Terminal) → Kept t (device_attributes t)
unfolding device_attributes
device_attributes-Kept t = Kept-same refl refl refl refl

pub scroll_down-Kept : (c : Console) (n : ℕ) (t : Terminal) → Kept t (scroll_down c n t)
unfolding scroll_down
scroll_down-Kept c n t = Kept-same refl refl refl refl

pub scroll_up-Kept : (c : Console) (n : ℕ) (t : Terminal) → Kept t (scroll_up c n t)
unfolding scroll_up
scroll_up-Kept c n t = Kept-same refl refl refl refl

pub delete_character-Kept : (c : Console) (n : ℕ) (t : Terminal) → Kept t (delete_character c n t)
unfolding delete_character
delete_character-Kept c n t = Kept-same refl refl refl refl

pub insert_character-Kept : (c : Console) (n : ℕ) (t : Terminal) → Kept t (insert_character c n t)
unfolding insert_character
insert_character-Kept c n t = Kept-same refl refl refl refl

pub insert_line-Kept : (c : Console) (n : ℕ) (t : Terminal) → Kept t (insert_line c n t)
unfolding insert_line
insert_line-Kept c n t = Kept-same refl refl refl refl

pub delete_line-Kept : (c : Console) (n : ℕ) (t : Terminal) → Kept t (delete_line c n t)
unfolding delete_line
delete_line-Kept c n t = Kept-same refl refl refl refl

pub erase_character-Kept : (c : Console) (n : ℕ) (t : Terminal) → Kept t (erase_character c n t)
unfolding erase_character
erase_character-Kept c n t = Kept-same refl refl refl refl

pub Kept-refl : (b : Bool) (t : Terminal) → Kept t (b, t)
Kept-refl b t = record { keeps = Keeps-refl t }

pub erase_in_line-Kept : (c : Console) (b : ℕ) (t : Terminal) → Kept t (erase_in_line c b t)
unfolding erase_in_line
erase_in_line-Kept c b t = ground arith

pub erase_in_display-Kept : (c : Console) (b : ℕ) (t : Terminal) → Kept t (erase_in_display c b t)
unfolding erase_in_display
erase_in_display-Kept c b t = ground arith

set_mode_from-Kept :
    (c : Console) (n : ℕ) (m : Option ℕ) (t : Terminal) → Kept t (set_mode_from c n m t)
unfolding set_mode_from
set_mode_from-Kept c n m t = ground arith

reset_mode_from-Kept :
    (c : Console) (n : ℕ) (m : Option ℕ) (t : Terminal) → Kept t (reset_mode_from c n m t)
unfolding reset_mode_from
reset_mode_from-Kept c n m t = ground arith

pub vertical_editing_mode-Kept : (z : ℤ) (t : Terminal) → Kept t (vertical_editing_mode z t)
unfolding vertical_editing_mode
vertical_editing_mode-Kept z t = ground arith

pub set_mode-Kept : (c : Console) (n : ℕ) (t : Terminal) → Kept t (set_mode c n t)
unfolding set_mode
set_mode-Kept c n t = set_mode_from-Kept c n (c.console_mode t.calls) t

pub reset_mode-Kept : (c : Console) (n : ℕ) (t : Terminal) → Kept t (reset_mode c n t)
unfolding reset_mode
reset_mode-Kept c n t = reset_mode_from-Kept c n (c.console_mode t.calls) t

render_margin-Keeps :
    (a b : ℕ) (r : SmallRect) (o : Option ScreenInfo) (t : Terminal)
    → Keeps t (render_margin a b r o t).2
unfolding render_margin
render_margin-Keeps a b r none t = ground arith
render_margin-Keeps a b r (some info) t = Keeps-refl t

pub set_top_bottom_margin-Kept :
    (c : Console) (a b : ℕ) (t : Terminal) → Kept t (set_top_bottom_margin c a b t)
unfolding set_top_bottom_margin
set_top_bottom_margin-Kept c a b t =
    let m = render_margin-Keeps a b t.info.window (c.screen_info t.calls) t in
    let v =
      (vertical_editing_mode-Kept
        (if (render_margin a b t.info.window (c.screen_info t.calls) t).0 then pos 1 else pos 2)
        (render_margin a b t.info.window (c.screen_info t.calls) t).2).keeps in
    let both = Keeps-trans m v in
    record {
      keeps = record {
        same_escape = both.same_escape;
        same_seq = both.same_seq;
        same_overrun = both.same_overrun;
        same_oflags = both.same_oflags;
      };
    }

pub device_status_report-Kept : (b : ℕ) (t : Terminal) → Kept t (device_status_report b t)
unfolding device_status_report
device_status_report-Kept b t = ground arith

set_info-Kept : (b : Bool) (i : ScreenInfo) (t : Terminal) → Kept t (b, record t { info = i })
set_info-Kept b i t = Kept-same refl refl refl refl

issue_info-Kept :
    (c : Console) (k : Call) (i : ScreenInfo) (t : Terminal)
    → Kept t (issue c k (record t { info = i }))
unfolding issue
issue_info-Kept c k i t = Kept-same refl refl refl refl

pub move_info-Kept :
    (c : Console) (p : Coord) (i : ScreenInfo) (t : Terminal)
    → Kept t (move_cursor c p (record t { info = i }))
unfolding move_cursor
move_info-Kept c p i t = Kept-same refl refl refl refl

pub Kept-trans : {t u : Terminal} {r : Bool × Terminal} → Keeps t u → Kept u r → Kept t r
Kept-trans a b = ground arith

pub select_graphic_rendition-Kept :
    (c : Console) (n : ℕ) (t : Terminal) → Kept t (select_graphic_rendition c n t)
unfolding select_graphic_rendition
select_graphic_rendition-Kept c n t =
    Kept-if (render_loop t.info.attributes 0 0 0 (take n t.seq.buf)).0 (issue_info-Kept c _ _ t)
      (set_info-Kept true _ t)
