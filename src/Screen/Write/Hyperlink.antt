-- ===== src/Screen/Write/Hyperlink.antt =====
-- Operating system commands (ESC ], the hyperlinks of systemctl): ScreenEscape skips their text,
-- but stores every byte of it.
use minc.Prelude.{
  ℕ, suc, ◌+◌, ◌≤◌, ◌<◌, ◌≡◌, refl, true, false, List, [], ◌∷◌, none, some, arith, length, ◌==◌,
  ◌∙◌, Bool-cases, inl, inr, ap,
}
use minc.Console.{Console, Sequence, Terminal, store, buf_size}
use minc.Screen.{render_window, put_string}
use minc.Screen.Write.{screen_escape, start_escape, control_byte, is_control, screen_write}
use minc.Screen.Write.Frame.{Keeps, put_string-Keeps, render_window-Kept}
use minc.Screen.Write.Feed.{
  Feed, feed, feed_all, flush, feed_text_from, feed_escape, feed_control, screen_write-feed,
}

-- A byte that neither ends the command nor gives it up.
pub record IsPayloadByte (b : ℕ) : Type 0 where
  pub not_bell : (b == 7) ≡ false
  pub not_at : (b == b'@') ≡ false
  pub not_underscore : (b == b'_') ≡ false

abbrev pub IsPayload : List ℕ → Type 0
IsPayload [] = Unit
IsPayload (b ∷ bs) = IsPayloadByte b × IsPayload bs

-- Within a command, at the offset n; once a byte was stored at an offset of 128 or more, the
-- record says so.
record Inside (n : ℕ) (t : Terminal) : Type 0 where
  at : t.escape ≡ some n
  command : t.seq.csi ≡ b']'
  recorded : buf_size < n → t.overrun ≡ true

stored_past : (n b : ℕ) (t : Terminal) → buf_size ≤ n → (store n b t).overrun ≡ true
unfolding store
stored_past n b t h = ground arith

store-csi : (n b : ℕ) (t : Terminal) → (store n b t).seq.csi ≡ t.seq.csi
unfolding store
store-csi n b t = ground arith

payload_step :
    (c : Console) (b n : ℕ) (t : Terminal)
    → IsPayloadByte b
    → t.seq.csi ≡ b']'
    → Inside (suc n) (screen_escape c b n t)
unfolding screen_escape
payload_step c b n t p k =
    let q : ((store n b t).seq.csi == b']') ≡ true = ground (arith, store-csi n b t) in
    rw (p.not_bell, p.not_at, p.not_underscore, q)
      (record {
        at = refl;
        command = store-csi n b t ∙ k;
        recorded = λ h. stored_past n b t (omega arith);
      })

feed-Inside :
    (c : Console) (flags b n : ℕ) (f : Feed)
    → IsPayloadByte b
    → Inside n f.terminal
    → Inside (suc n) (feed c flags b f).terminal
feed-Inside c flags b n f p h =
    rw (feed_escape c flags b f.pending f.terminal n h.at)
      (payload_step c b n f.terminal p h.command)

feed_all-Inside :
    (c : Console) (flags : ℕ) (bs : List ℕ) (n m : ℕ) (f : Feed)
    → m ≡ n + length bs
    → IsPayload bs
    → Inside n f.terminal
    → Inside m (feed_all c flags bs f).terminal
unfolding feed_all
feed_all-Inside c flags [] n m f e p h = let q : n ≡ m = omega arith in rw (← q) h
feed_all-Inside c flags (b ∷ bs) n m f e p h =
    feed_all-Inside c flags bs (suc n) m (feed c flags b f) (omega arith) p.1
      (feed-Inside c flags b n f p.0 h)

Keeps-Inside : {n : ℕ} {t u : Terminal} → Keeps t u → Inside n t → Inside n u
Keeps-Inside k h = record {
  at = k.same_escape ∙ h.at;
  command = ap (λ (s : Sequence). s.csi) k.same_seq ∙ h.command;
  recorded = λ q. k.same_overrun ∙ h.recorded q;
}

flush-Inside : (c : Console) {n : ℕ} (f : Feed) → Inside n f.terminal → Inside n (flush c f)
unfolding flush
flush-Inside c {n} f h = elim (Bool-cases (length f.pending == 0)) [
  | inl e ↦ rw e h
  | inr e ↦ rw e (Keeps-Inside (put_string-Keeps c f.pending f.terminal) h)
]

-- ESC ] begins a command.
opening :
    (c : Console) (t : Terminal)
    → c.is_alpha_numeric b']' ≡ false
    → Inside 1 (screen_escape c b']' 0 (start_escape t))
unfolding screen_escape start_escape store
opening c t h = rw h (record { at = refl; command = refl; recorded = λ q. absurd (omega arith) })

feed_opening :
    (c : Console) (flags : ℕ) (p : List ℕ) (t : Terminal)
    → t.escape ≡ none
    → feed c flags 27 (record { pending = p; terminal = t })
      ≡ record { pending = []; terminal = start_escape (put_string c p t) }
unfolding is_control control_byte
feed_opening c flags p t e = feed_control c flags 27 p t e refl refl

feed-bracket :
    (c : Console) (flags : ℕ) (t : Terminal)
    → feed c flags b']' (record { pending = []; terminal = start_escape t })
      ≡ record { pending = []; terminal = screen_escape c b']' 0 (start_escape t) }
unfolding start_escape
feed-bracket c flags t = feed_escape c flags b']' [] _ 0 refl

-- A text that opens a command and goes on with its payload.
abbrev pub command : List ℕ → List ℕ
command payload = 27 ∷ b']' ∷ payload

feed_all-command :
    (c : Console) (flags : ℕ) (payload : List ℕ) (t : Terminal)
    → t.escape ≡ none
    → c.is_alpha_numeric b']' ≡ false
    → IsPayload payload
    → Inside
        (suc (length payload))
        (feed_all c flags (command payload) (record { pending = []; terminal = t })).terminal
unfolding feed_all
feed_all-command c flags payload t e h p =
    feed_all-Inside c flags payload 1 (suc (length payload)) _ (omega arith) p (
      rw (feed_opening c flags [] t e, feed-bracket c flags (put_string c [] t))
        (opening c (put_string c [] t) h))

-- Where the terminal is in no sequence, a screen is there and ] is not alphanumeric to Windows,
-- an operating system command whose payload has 128 bytes or more, none of them BEL, @ or _,
-- makes screen_write store past the end of the sequence buffer.
pub screen_write-overrun :
    (c : Console) (payload : List ℕ) (t : Terminal)
    → (render_window c t).0 ≡ true
    → t.escape ≡ none
    → c.is_alpha_numeric b']' ≡ false
    → IsPayload payload
    → buf_size ≤ length payload
    → (screen_write c (command payload) t).1.overrun ≡ true
unfolding feed_text_from
screen_write-overrun c payload t shown e h p long =
    rw (screen_write-feed c (command payload) t, shown)
      ((flush-Inside c _ (
          feed_all-command c u.oflags payload u ((render_window-Kept c t).keeps.same_escape ∙ e) h
            p)).recorded
        (omega arith))
  where
    u : Terminal
    u = (render_window c t).1
