-- ===== src/Screen/Write/Bounds.antt =====
-- The offsets of the escape sequence parser: where it stores bytes, and where a number begins.
use minc.Prelude.{
  ℕ, zero, suc, ◌+◌, ◌≤◌, ◌<◌, ◌≡◌, refl, Bool, true, false, List, [], ◌∷◌, ◌++◌, Option, none,
  some, arith, ltb, length, length-set, if◌then◌else◌, ◌==◌, ◌∙◌, not,
}
use minc.Console.{Console, Call, Sequence, Terminal, store, buf_size, issue_, set_output_cp}
use minc.Screen.{put_string, render_window}
use minc.Screen.Write.{
  dispatch, finish, screen_ansi, screen_escape, is_control, control_byte, start_escape,
  screen_write,
}
use minc.Screen.Write.Frame.{
  Keeps, dispatch-Kept, put_string-Keeps, render_window-Kept, cursor_back-Kept, line_feed-Kept,
  carriage_return-Kept,
}
use minc.Screen.Write.Feed.{Feed, feed_at, feed, feed_all, flush, feed_text_from, screen_write-feed}

-- The buffer has room for `m` more bytes of a sequence and the NUL behind them, nothing was stored
-- past its end, and the number that a sequence is at begins among the bytes stored.
pub record Fits (m : ℕ) (t : Terminal) : Type 0 where
  pub small : m < buf_size
  pub room : length t.seq.buf ≡ buf_size
  pub inside : t.overrun ≡ false
  pub deep : (n : ℕ) → t.escape ≡ some n → n + m < buf_size
  pub args_in : (n : ℕ) → t.escape ≡ some n → t.seq.args ≤ n

-- The offsets do not change under what keeps the parser.
Keeps-Fits : {m : ℕ} {t u : Terminal} → Keeps t u → Fits m t → Fits m u
Keeps-Fits {m} {t} {u} k f = record {
  small = f.small;
  room = rw k.same_seq f.room;
  inside = rw k.same_overrun f.inside;
  deep = λ n e. f.deep n (rw (← k.same_escape) e);
  args_in = λ n e. rw k.same_seq (f.args_in n (rw (← k.same_escape) e));
}

store-room : (i b : ℕ) (t : Terminal) → length (store i b t).seq.buf ≡ length t.seq.buf
unfolding store
store-room i b t = ground (arith, length-set t.seq.buf i b)

store-inside : (i b : ℕ) (t : Terminal) → i < buf_size → (store i b t).overrun ≡ t.overrun
unfolding store
store-inside i b t h = ground arith

store-args : (i b : ℕ) (t : Terminal) → (store i b t).seq.args ≡ t.seq.args
unfolding store
store-args i b t = ground arith

issue_-Keeps : (c : Console) (k : Call) (t : Terminal) → Keeps t (issue_ c k t)
unfolding issue_
issue_-Keeps c k t = record {
  same_escape = refl;
  same_seq = refl;
  same_overrun = refl;
  same_oflags = refl;
}

finish-Fits :
    (c : Console) (n : ℕ) (known : Bool) {m : ℕ} (t : Terminal)
    → n < buf_size
    → m < buf_size
    → length t.seq.buf ≡ buf_size
    → t.overrun ≡ false
    → Fits m (finish c n known t)
unfolding finish issue_ store
finish-Fits c n true t hn hm room inside = record {
  small = hm;
  room = room;
  inside = inside;
  deep = λ k e. absurd (cc);
  args_in = λ k e. absurd (cc);
}
finish-Fits c n false t hn hm room inside = record {
  small = hm;
  room = store-room n 0 t ∙ room;
  inside = store-inside n 0 t hn ∙ inside;
  deep = λ k e. absurd (cc);
  args_in = λ k e. absurd (cc);
}

screen_ansi-Fits :
    (c : Console) (b n : ℕ) {m : ℕ} (t : Terminal)
    → n < buf_size
    → m < buf_size
    → length t.seq.buf ≡ buf_size
    → t.overrun ≡ false
    → Fits m (screen_ansi c b n t)
unfolding screen_ansi
screen_ansi-Fits c b n t hn hm room inside =
    let k = (dispatch-Kept c b n t).keeps in
    finish-Fits c n (dispatch c b n t).0 (dispatch c b n t).1 hn hm (rw k.same_seq room)
      (rw k.same_overrun inside)

Fits-if : {m : ℕ} (b : Bool) {t u : Terminal} → Fits m t → Fits m u → Fits m (if b then t else u)
Fits-if true p q = p
Fits-if false p q = q

-- A sequence that ends without a call leaves the offsets behind.
ended-Fits :
    {m : ℕ} (t : Terminal)
    → m < buf_size
    → length t.seq.buf ≡ buf_size
    → t.overrun ≡ false
    → Fits m (record t { escape = none })
ended-Fits t hm room inside = record {
  small = hm;
  room = room;
  inside = inside;
  deep = λ k e. absurd (cc);
  args_in = λ k e. absurd (cc);
}

-- One that goes on, with new parameters and the same buffer.
going-Fits :
    {m : ℕ} (n : ℕ) (s : Sequence) (t : Terminal)
    → suc n + m < buf_size
    → length s.buf ≡ buf_size
    → t.overrun ≡ false
    → s.args ≤ suc n
    → Fits m (record t { escape = some (suc n); seq = s })
going-Fits n s t h room inside args = record {
  small = omega arith;
  room = room;
  inside = inside;
  deep = λ k e. ground arith;
  args_in = λ k e. ground arith;
}

-- A byte of a sequence takes one byte of the room.
screen_escape-Fits :
    (c : Console) (b n : ℕ) {m : ℕ} (t : Terminal)
    → t.escape ≡ some n
    → Fits (suc m) t
    → Fits m (screen_escape c b n t)
unfolding screen_escape
screen_escape-Fits c b n {m} t e f =
    let d = f.deep n e in
    let u : Terminal = record (store n b t) { escape = some (suc n) } in
    let hm : m < buf_size = omega arith in
    let hn : suc n < buf_size = omega arith in
    let h : suc n + m < buf_size = omega arith in
    let room : length (store n b t).seq.buf ≡ buf_size = store-room n b t ∙ f.room in
    let inside : (store n b t).overrun ≡ false = store-inside n b t (omega arith) ∙ f.inside in
    let args : (store n b t).seq.args ≤ n = rw (store-args n b t) (f.args_in n e) in
    Fits-if (b == 7) (ended-Fits u hm room inside) (
      Fits-if (b == b'@') (screen_ansi-Fits c b (suc n) u hn hm room inside) (
        Fits-if (b == b'_') (ended-Fits u hm room inside) (
          Fits-if ((store n b t).seq.csi == b']')
            (going-Fits n (store n b t).seq (store n b t) h room inside (omega arith))
            (Fits-if (b == b';') (going-Fits n _ (store n b t) h room inside (omega arith)) (
              Fits-if (not (c.is_alpha_numeric b))
                (going-Fits n _ (store n b t) h room inside (omega arith))
                (Fits-if (c.is_alpha b) (screen_ansi-Fits c b (suc n) u hn hm room inside) (
                  Fits-if ((store n b t).seq.csi == 0)
                    (screen_ansi-Fits c b (suc n) u hn hm room inside)
                    (Fits-if ((store n b t).seq.char1 == 0)
                      (going-Fits n _ (store n b t) h room inside (omega arith))
                      (going-Fits n (store n b t).seq (store n b t) h room inside
                        (omega arith))))))))))

start_escape-Fits : {m : ℕ} (t : Terminal) → Fits (suc m) t → Fits m (start_escape t)
unfolding start_escape
start_escape-Fits t f = record {
  small = omega (arith, f.small);
  room = f.room;
  inside = f.inside;
  deep = λ k e. ground (arith, f.small);
  args_in = λ k e. omega arith;
}

less-Fits : {m : ℕ} {t : Terminal} → Fits (suc m) t → Fits m t
less-Fits f = record {
  small = omega (arith, f.small);
  room = f.room;
  inside = f.inside;
  deep = λ k e. omega (arith, f.deep k e);
  args_in = f.args_in;
}

control_byte-Fits :
    (c : Console) (flags b : ℕ) {m : ℕ} (t : Terminal)
    → Fits (suc m) t
    → Fits m (control_byte c flags b t)
unfolding control_byte
control_byte-Fits c flags b t f =
    let g = less-Fits f in
    Fits-if (b == 27) (start_escape-Fits t f) (
      Fits-if (b == 8) (Keeps-Fits (cursor_back-Kept c 1 t).keeps g) (
        Fits-if (b == 10) (Keeps-Fits (line_feed-Kept c flags t).keeps g) (
          Fits-if (b == 13) (Keeps-Fits (carriage_return-Kept c flags t).keeps g) (
            Fits-if (b == 14) (Keeps-Fits (issue_-Keeps c (set_output_cp 437) t) g)
              (Fits-if (b == 15) (Keeps-Fits (issue_-Keeps c (set_output_cp 65001) t) g) g)))))

FeedFits-if :
    {m : ℕ} (b : Bool) (f g : Feed)
    → Fits m f.terminal
    → Fits m g.terminal
    → Fits m (if b then f else g).terminal
FeedFits-if true f g p q = p
FeedFits-if false f g p q = q

feed_at-Fits :
    (c : Console) (flags b : ℕ) (o : Option ℕ) {m : ℕ} (f : Feed)
    → f.terminal.escape ≡ o
    → Fits (suc m) f.terminal
    → Fits m (feed_at c flags b o f).terminal
unfolding feed_at
feed_at-Fits c flags b (some n) f e h = screen_escape-Fits c b n f.terminal e h
feed_at-Fits c flags b none f e h =
    let k = Keeps-Fits (put_string-Keeps c f.pending f.terminal) h in
    let put = put_string c f.pending f.terminal in
    FeedFits-if (ltb b 32)
      (if is_control b
        then record { pending = []; terminal = control_byte c flags b put }
        else record { pending = b ∷ []; terminal = put })
      (record { pending = f.pending ++ (b ∷ []); terminal = f.terminal })
      (FeedFits-if (is_control b) (record { pending = []; terminal = control_byte c flags b put })
        (record { pending = b ∷ []; terminal = put }) (control_byte-Fits c flags b put k)
        (less-Fits k))
      (less-Fits h)

feed-Fits :
    (c : Console) (flags b : ℕ) {m : ℕ} (f : Feed)
    → Fits (suc m) f.terminal
    → Fits m (feed c flags b f).terminal
unfolding feed
feed-Fits c flags b f h = feed_at-Fits c flags b f.terminal.escape f refl h

feed_all-Fits :
    (c : Console) (flags : ℕ) (bs : List ℕ) (f : Feed)
    → Fits (length bs) f.terminal
    → Fits 0 (feed_all c flags bs f).terminal
unfolding feed_all
feed_all-Fits c flags [] f h = h
feed_all-Fits c flags (b ∷ bs) f h =
    feed_all-Fits c flags bs (feed c flags b f) (feed-Fits c flags b f h)

flush-Fits : (c : Console) {m : ℕ} (f : Feed) → Fits m f.terminal → Fits m (flush c f)
unfolding flush
flush-Fits c f h =
    Fits-if (length f.pending == 0) h (Keeps-Fits (put_string-Keeps c f.pending f.terminal) h)

any-Fits : (m : ℕ) (t : Terminal) → Fits m t → Fits 0 t
any-Fits zero t h = h
any-Fits (suc m) t h = any-Fits m t (less-Fits h)

-- Where the sequence buffer has 128 bytes and nothing was stored past its end, as long as the
-- bytes that a sequence has taken and the bytes to be written are fewer than 128 in all,
-- screen_write stores nothing past its end, and a number of a sequence begins among the bytes
-- that the sequence has stored.
pub screen_write-Fits :
    (c : Console) (text : List ℕ) (t : Terminal)
    → Fits (length text) t
    → Fits 0 (screen_write c text t).1
unfolding feed_text_from
screen_write-Fits c text t h = rw (screen_write-feed c text t) (
    WriteFits-if (render_window c t).0 _ _ _ _
      (flush-Fits c _ (
        feed_all-Fits c t'.oflags text (record { pending = []; terminal = t' })
          (Keeps-Fits (render_window-Kept c t).keeps h)))
      (any-Fits (length text) t h))
  where
    t' : Terminal
    t' = (render_window c t).1

    WriteFits-if :
        (b : Bool) (o o' : Option ℕ) (u v : Terminal)
        → Fits 0 u
        → Fits 0 v
        → Fits 0 (if◌then◌else◌ {A = Option ℕ × Terminal} b (o, u) (o', v)).1
    WriteFits-if true o o' u v p q = p
    WriteFits-if false o o' u v p q = q
