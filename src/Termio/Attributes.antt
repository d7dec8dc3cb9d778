-- ===== src/Termio/Attributes.antt =====
-- The settings of a terminal, set and read back: proofs.
use minc.Prelude.{
  ℕ, zero, suc, ◌<◌, ◌≡◌, ◌≢◌, refl, sym, ap, ◌∙◌, Bool, true, false, List, [], ◌∷◌, length, ◌==◌,
  get_or, set, if◌then◌else◌, if_lem, arith,
}
use minc.Descriptor.{VNode, FsType, fs_char, fs_pdo}
use minc.Descriptor.Table.{value}
use minc.Termio.{
  Attribs, Tty, Device, DevKind, dev_console, dev_input, dev_screen, dev_pty, dev_tty, dev_other,
  kind_of, TermCall, set_console_mode, input_mode, Windows, Terms, call, and_then, con_tiocseta,
}
use minc.Screen.{screen_mode}
use minc.Termio.Dispatch.{
  Leader, no_tty, tty_at, put_tty, vfs_tiocgeta, vfs_tiocdrain, pdo_tiocseta, char_tiocseta,
  seta_by, vfs_tiocseta,
}
use minc.Termio.Ioctl.{
  get_attribs, set_attribs, nothing, attribs, Result, term_tiocgeta, term_tiocseta, term_ioctl,
}
use minc.Termio.Keeps.{vfs_tiocdrain-Keeps, vfs_tiocseta-Keeps}
use mathlib.Core.Path.{subst}

get_or-set_self :
    (xs : List Tty) (i : ℕ) (t : Tty) → i < length xs → get_or (set xs i t) i no_tty ≡ t
get_or-set_self [] i t h = absurd (omega arith)
get_or-set_self (x ∷ xs) zero t h = refl
get_or-set_self (x ∷ xs) (suc i) t h = get_or-set_self xs i t (omega arith)

get_or-set_ne :
    (xs : List Tty) (i j : ℕ) (t : Tty) → i ≢ j → get_or (set xs i t) j no_tty ≡ get_or xs j no_tty
get_or-set_ne [] i j t h = refl
get_or-set_ne (x ∷ xs) zero zero t h = absurd (h refl)
get_or-set_ne (x ∷ xs) zero (suc j) t h = refl
get_or-set_ne (x ∷ xs) (suc i) zero t h = refl
get_or-set_ne (x ∷ xs) (suc i) (suc j) t h = get_or-set_ne xs i j t (λ e. h (ap suc e))

pub tty_at_put : (i : ℕ) (t : Tty) (s : Terms) → i < length s.ttys → tty_at i (put_tty i t s) ≡ t
unfolding tty_at put_tty
tty_at_put i t s h = get_or-set_self s.ttys i t h

tty_at_put_ne : (i j : ℕ) (t : Tty) (s : Terms) → i ≢ j → tty_at j (put_tty i t s) ≡ tty_at j s
unfolding tty_at put_tty
tty_at_put_ne i j t s h = get_or-set_ne s.ttys i j t h

-- Windows sets both modes of a console for these settings.
abbrev pub AcceptsModes : Windows → Attribs → Device → Type 0
AcceptsModes windows a d =
    (windows.accepts (set_console_mode d.input (input_mode a)) ≡ true)
    × (windows.accepts (set_console_mode d.output (screen_mode a.o_flags)) ≡ true)

-- The files and devices that take settings: a file of a console always, a device object where it is
-- a terminal of its own, or a console or its pseudo terminal whose modes Windows sets.
abbrev pub TakesSettings : Windows → Attribs → FsType → DevKind → Device → Type 0
TakesSettings windows a fs_char k d = Unit {0}
TakesSettings windows a fs_pdo dev_tty d = Unit {0}
TakesSettings windows a fs_pdo dev_console d = AcceptsModes windows a d
TakesSettings windows a fs_pdo dev_pty d = AcceptsModes windows a d
TakesSettings windows a _ _ d = ⊥

-- A file that takes them, by itself or by the device behind it.
abbrev pub NodeTakes : Windows → Attribs → VNode → (ℕ → Device) → Type 0
NodeTakes windows a n devices =
    TakesSettings windows a n.fs_type (kind_of (devices n.device_id).device_type)
      (devices n.device_id)

-- The kind of the device behind a file.
abbrev pub device_kind : VNode → Terms → DevKind
device_kind n s = kind_of (s.devices n.device_id).device_type

module _ (windows : Windows) where
  call_accepted :
      (c : TermCall) (s : Terms) → windows.accepts c ≡ true → (call windows c s).1 ≡ true
  unfolding call
  call_accepted c s h = rw h refl

  and_then_accepted :
      (r : Terms × Bool) (next : Terms → Terms × Bool)
      → r.1 ≡ true
      → ((t : Terms) → (next t).1 ≡ true)
      → (and_then windows r next).1 ≡ true
  unfolding and_then
  and_then_accepted (t, true) next h k = k t
  and_then_accepted (t, false) next h k = h

  con_accepts :
      (d : Device) (a : Attribs) (s : Terms)
      → AcceptsModes windows a d
      → (con_tiocseta windows d a s).1 ≡ true
  unfolding con_tiocseta
  con_accepts d a s h =
      and_then_accepted (call windows _ s) (call windows _) (call_accepted _ s h.0)
        (λ t. call_accepted _ t h.1)

  pdo_takes :
      (k : DevKind) (d : Device) (a : Attribs) (s : Terms)
      → TakesSettings windows a fs_pdo k d
      → (pdo_tiocseta windows k d a s).1 ≡ true
  unfolding pdo_tiocseta
  pdo_takes dev_console d a s h = con_accepts d a s h
  pdo_takes dev_pty d a s h = con_accepts d a s h
  pdo_takes dev_tty d a s h = refl
  pdo_takes dev_input d a s h = absurd h
  pdo_takes dev_screen d a s h = absurd h
  pdo_takes dev_other d a s h = absurd h

  takes :
      (t : FsType) (n : VNode) (a : Attribs) (s : Terms)
      → TakesSettings windows a t
          (kind_of (s.devices n.device_id).device_type)
          (s.devices n.device_id)
      → (seta_by windows t n a s).1 ≡ true
  unfolding seta_by char_tiocseta
  takes fs_pdo n a s h =
      pdo_takes (kind_of (s.devices n.device_id).device_type) (s.devices n.device_id) a s h
  takes fs_char n a s h = refl
  takes _ n a s h = absurd h

  vfs_tiocseta_takes :
      (n : VNode) (a : Attribs) (f d : Bool) (s : Terms)
      → NodeTakes windows a n s.devices
      → (vfs_tiocseta windows n a f d s).1 ≡ true
  unfolding vfs_tiocseta
  vfs_tiocseta_takes n a f d s h =
      let s1 = if d then (vfs_tiocdrain windows n.fs_type n s).0 else s in
      let same : s1.devices ≡ s.devices =
        if_lem (λ (t : Terms). t.devices ≡ s.devices) d
          (vfs_tiocdrain-Keeps windows n.fs_type n s).1 refl in
      takes n.fs_type n a s1 (subst (λ (g : ℕ → Device). NodeTakes windows a n g) (sym same) h)

  -- A terminal is a file of the console or a device object.
  told_attribs :
      (a : Attribs) (t : FsType) (k : DevKind) (e : Device) (n : VNode) (l : Leader) (s : Terms)
      → TakesSettings windows a t k e
      → term_tiocgeta windows n l (vfs_tiocgeta windows t s) ≡ record {
        terms = s;
        leader = l;
        stored = attribs (tty_at n.index s).attribs;
        reply = value 0;
      }
  unfolding term_tiocgeta vfs_tiocgeta
  told_attribs a fs_pdo k e n l s h = refl
  told_attribs a fs_char k e n l s h = refl
  told_attribs a _ k e n l s h = absurd h

  set_reply :
      (n : VNode) (l : Leader) (a : Attribs) (r : Terms × Bool)
      → r.1 ≡ true
      → term_tiocseta windows n a l r ≡ record {
        terms = put_tty n.index (record (tty_at n.index r.0) { attribs = a }) r.0;
        leader = l;
        stored = nothing;
        reply = value 0;
      }
  unfolding term_tiocseta
  set_reply n l a (s, true) h = refl
  set_reply n l a (s, false) h = cc

  told_ioctl :
      (a : Attribs) (n : VNode) (l : Leader) (s : Terms) (k : DevKind) (e : Device)
      → (n.access == 0) ≡ false
      → TakesSettings windows a n.fs_type k e
      → (term_ioctl windows n l get_attribs s).stored ≡ attribs (tty_at n.index s).attribs
  unfolding term_ioctl
  told_ioctl a n l s k e opened h =
      rw opened (ap (λ (q : Result). q.stored) (told_attribs a n.fs_type k e n l s h))

  -- The result of setting, where the settings are taken.
  set_result : VNode → Leader → Attribs → Bool → Bool → Terms → Result
  set_result n l a f d s =
      let v = (vfs_tiocseta windows n a f d s).0 in
      record {
        terms = put_tty n.index (record (tty_at n.index v) { attribs = a }) v;
        leader = l;
        stored = nothing;
        reply = value 0;
      }

  set_ioctl :
      (n : VNode) (l : Leader) (a : Attribs) (f d : Bool) (s : Terms)
      → (n.access == 0) ≡ false
      → NodeTakes windows a n s.devices
      → term_ioctl windows n l (set_attribs a f d) s ≡ set_result n l a f d s
  unfolding term_ioctl set_result
  set_ioctl n l a f d s opened h =
      rw opened (set_reply n l a (vfs_tiocseta windows n a f d s) (vfs_tiocseta_takes n a f d s h))

  -- The settings of an open terminal of the table, set at once, after draining or after draining
  -- and flushing. The terminal is a file of the character driver, or a device object that is a
  -- terminal of its own, or a device object that is a console or its pseudo terminal and whose
  -- input and output modes Windows sets for those settings. Then the call succeeds, the terminal is
  -- as before but for its settings, every other terminal is as before, and a call that asks for the
  -- settings gives those that were set.
  pub term_ioctl_set_get :
      (n : VNode) (l : Leader) (a : Attribs) (f d : Bool) (s : Terms)
      → (n.access == 0) ≡ false
      → n.index < length s.ttys
      → NodeTakes windows a n s.devices
      → ((term_ioctl windows n l (set_attribs a f d) s).reply ≡ value 0)
        × ((term_ioctl windows n l get_attribs
              (term_ioctl windows n l (set_attribs a f d) s).terms).stored
            ≡ attribs a)
        × (tty_at n.index (term_ioctl windows n l (set_attribs a f d) s).terms
            ≡ record (tty_at n.index s) { attribs = a })
        × ((j : ℕ)
            → n.index ≢ j
            → tty_at j (term_ioctl windows n l (set_attribs a f d) s).terms ≡ tty_at j s)
  unfolding set_result tty_at
  term_ioctl_set_get n l a f d s opened i h =
      let v = vfs_tiocseta windows n a f d s in
      let k = vfs_tiocseta-Keeps windows n a f d s in
      let e = set_ioctl n l a f d s opened h in
      let r = set_result n l a f d s in
      let own : tty_at n.index r.terms ≡ record (tty_at n.index s) { attribs = a } =
        tty_at_put n.index (record (tty_at n.index v.0) { attribs = a }) v.0 (rw k.0 i)
        ∙ ap (λ (ts : List Tty). record (get_or ts n.index no_tty) { attribs = a }) k.0 in
      (
        ap (λ (q : Result). q.reply) e,
        ap (λ (q : Result). (term_ioctl windows n l get_attribs q.terms).stored) e
            ∙ told_ioctl a n l r.terms (kind_of (s.devices n.device_id).device_type)
                (s.devices n.device_id) opened h
            ∙ ap (λ (t : Tty). attribs t.attribs) own,
        ap (λ (q : Result). tty_at n.index q.terms) e ∙ own,
        λ j ne.
            ap (λ (q : Result). tty_at j q.terms) e
            ∙ tty_at_put_ne n.index j (record (tty_at n.index v.0) { attribs = a }) v.0 ne
            ∙ ap (λ (ts : List Tty). get_or ts j no_tty) k.0,
      )
