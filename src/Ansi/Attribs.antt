-- ===== src/Ansi/Attribs.antt =====
-- libposix/vfs/char/char_ansi.c: character attributes (Select Graphic Rendition). The attributes
-- are the WORD of Info->wAttributes; the values of the FOREGROUND_ and BACKGROUND_ bits are those
-- that Windows documents for wincon.h.
pub mod Colours
use minc.Prelude.{
  ℕ, zero, suc, ◌+◌, ◌*◌, ◌/◌, Bool, true, false, not, ◌&&◌, ◌||◌, List, [], ◌∷◌, take, bit_and,
  bit_or, ◌==◌, if◌then◌else◌,
}
use minc.Console.{Console, Terminal, set_text_attribute, issue}

abbrev pub foreground_blue : ℕ
foreground_blue = 0x01

abbrev pub foreground_green : ℕ
foreground_green = 0x02

abbrev pub foreground_red : ℕ
foreground_red = 0x04

abbrev pub foreground_intensity : ℕ
foreground_intensity = 0x08

abbrev pub foreground_white : ℕ
foreground_white = bit_or (bit_or foreground_red foreground_green) foreground_blue

abbrev pub foreground_yellow : ℕ
foreground_yellow = bit_or foreground_red foreground_green

abbrev pub foreground_magenta : ℕ
foreground_magenta = bit_or foreground_blue foreground_red

abbrev pub foreground_cyan : ℕ
foreground_cyan = bit_or foreground_blue foreground_green

abbrev pub background_blue : ℕ
background_blue = 0x10

abbrev pub background_green : ℕ
background_green = 0x20

abbrev pub background_red : ℕ
background_red = 0x40

abbrev pub background_white : ℕ
background_white = bit_or (bit_or background_red background_green) background_blue

abbrev pub background_yellow : ℕ
background_yellow = bit_or background_red background_green

abbrev pub background_magenta : ℕ
background_magenta = bit_or background_blue background_red

abbrev pub background_cyan : ℕ
background_cyan = bit_or background_blue background_green

abbrev pub reverse_video : ℕ
reverse_video = 0x4000

-- AnsiInvertAttribs
unfoldable pub invert_attribs : ℕ → ℕ
invert_attribs w = bit_or (bit_and w 0xF0 / 0x10) (bit_and w 0x0F * 0x10)

-- AnsiRenderForeground: the result, and the attributes afterwards.
unfoldable pub render_foreground : ℕ → ℕ → Bool × ℕ
render_foreground w char2 =
    let w' = bit_and w 0xFFF8 in
    if char2 == b'0'
    then (true, bit_or w' 0)
    else if char2 == b'1'
    then (true, bit_or w' foreground_red)
    else if char2 == b'2'
    then (true, bit_or w' foreground_green)
    else if char2 == b'3'
    then (true, bit_or w' foreground_yellow)
    else if char2 == b'4'
    then (true, bit_or w' foreground_blue)
    else if char2 == b'5'
    then (true, bit_or w' foreground_magenta)
    else if char2 == b'6'
    then (true, bit_or w' foreground_cyan)
    else if char2 == b'7'
    then (true, bit_or w' foreground_white)
    else if char2 == b'9'
    then (true, bit_or w' foreground_white)
    else (false, w')

-- AnsiRenderBackground
unfoldable pub render_background : ℕ → ℕ → Bool × ℕ
render_background w char2 =
    let w' = bit_and w 0xFF8F in
    if char2 == b'0'
    then (true, bit_or w' 0)
    else if char2 == b'1'
    then (true, bit_or w' background_red)
    else if char2 == b'2'
    then (true, bit_or w' background_green)
    else if char2 == b'3'
    then (true, bit_or w' background_yellow)
    else if char2 == b'4'
    then (true, bit_or w' background_blue)
    else if char2 == b'5'
    then (true, bit_or w' background_magenta)
    else if char2 == b'6'
    then (true, bit_or w' background_cyan)
    else if char2 == b'7'
    then (true, bit_or w' background_white)
    else if char2 == b'9'
    then (true, bit_or w' 0)
    else (false, w')

-- AnsiRenderFont
unfoldable pub render_font : ℕ → ℕ → Bool × ℕ
render_font w char2 =
    if char2 == 0 || char2 == b'0'
    then (true, bit_or 0 foreground_white)
    else if char2 == b'1'
    then (true, bit_or w foreground_intensity)
    else if char2 == b'2'
    then (true, w)
    else if char2 == b'3'
    then (true, w)
    else if char2 == b'4'
    then (true, bit_or w foreground_cyan)
    else if char2 == b'5'
    then (true, bit_or w reverse_video)
    else if char2 == b'7'
    then (true, bit_or w reverse_video)
    else (false, w)

-- AnsiRenderClear: the masks are the complements of the bits, in a WORD.
unfoldable pub render_clear : ℕ → ℕ → Bool × ℕ
render_clear w char2 =
    if char2 == b'2'
    then (true, bit_and w 0xFFF7)
    else if char2 == b'4'
    then (true, bit_and w 0xFFFC)
    else if char2 == b'5'
    then (true, bit_and w 0xBFFF)
    else if char2 == b'7'
    then (true, bit_and w 0xBFFF)
    else (false, w)

-- AnsiRender. Its third character is not used.
unfoldable pub render : ℕ → ℕ → ℕ → Bool × ℕ
render w char1 char2 =
    if char1 == b'0'
    then render_font w char2
    else if char2 == 0
    then render_font w char1
    else if char1 == b'1'
    then render_font w char2
    else if char1 == b'2'
    then render_clear w char2
    else if char1 == b'3'
    then render_foreground w char2
    else if char1 == b'4'
    then render_background w char2
    else (false, w)

-- The loop of AnsiSelectGraphicRendition over the bytes left, with its three characters. The
-- answer is false where an unknown rendition ends the function early.
unfoldable pub render_loop : ℕ → ℕ → ℕ → ℕ → List ℕ → Bool × ℕ
render_loop w char1 char2 char3 [] = (true, w)
render_loop w char1 char2 char3 (c ∷ []) = if c == b'[' then (true, w) else render w char1 char2
render_loop w char1 char2 char3 (c ∷ d ∷ cs) =
    let skip = render_loop w char1 char2 char3 (d ∷ cs) in
    let next = render_loop (render w char1 char2).1 0 0 0 (d ∷ cs) in
    let first = render_loop w c char2 char3 (d ∷ cs) in
    let second = render_loop w char1 c char3 (d ∷ cs) in
    let third = render_loop w char1 char2 c (d ∷ cs) in
    if c == b'['
    then skip
    else if c == b';'
    then (if (render w char1 char2).0 then next else (false, (render w char1 char2).1))
    else if char1 == 0
    then first
    else if char2 == 0
    then second
    else if char3 == 0
    then third
    else skip

-- The attributes that AnsiSelectGraphicRendition hands to the console.
unfoldable pub console_attribs : ℕ → ℕ
console_attribs w = if bit_and w reverse_video == 0 then bit_and w 0xFF else invert_attribs w

-- AnsiSelectGraphicRendition for the first `n` bytes of the buffer.
unfoldable pub select_graphic_rendition : Console → ℕ → Terminal → Bool × Terminal
unfolding issue
select_graphic_rendition c n t =
    let (known, w) = render_loop t.info.attributes 0 0 0 (take n t.seq.buf) in
    let t' = record t { info = record t.info { attributes = w } } in
    if known then issue c (set_text_attribute (console_attribs w)) t' else (true, t')
