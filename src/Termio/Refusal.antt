-- ===== src/Termio/Refusal.antt =====
-- What a request that fails leaves: proofs.
use minc.Prelude.{ℕ, ◌≡◌, refl, Bool, true, false, Option, none, some, ◌==◌, if_lem}
use minc.Errno.{Errno}
use minc.Descriptor.{VNode, FsType, fs_char, fs_pipe, fs_pdo}
use minc.Descriptor.Table.{error}
use minc.Termio.{
  WinSize, Attribs, Device, DevKind, dev_console, dev_input, dev_screen, dev_pty, dev_tty,
  dev_other, kind_of, Windows, Terms, char_tiocsctty,
}
use minc.Termio.Dispatch.{
  Leader, tty_at, pdo_size, char_size, size_by, pdo_set_size, char_set_size, set_size_by,
  vfs_tiocgwinsz, vfs_tiocswinsz, vfs_tiocgeta, vfs_tiocflush, vfs_tiocdrain, vfs_tiocseta,
}
use minc.Termio.Ioctl.{
  Request, flush, drain, take_terminal, get_attribs, get_size, get_group, get_discipline, get_flags,
  get_pair, vfs_ptmget, pair_answer, pair_made, term_ptmget, unknown, set_size, set_attribs,
  set_group, set_flags, Stored, size, number, Result, told, stored_if, term_tiocgeta, term_tiocseta,
  term_request, term_ioctl,
}
use minc.Termio.Keeps.{
  screen_tiocswinsz-Keeps, vfs_tiocflush-Keeps, vfs_tiocdrain-Keeps, vfs_tiocseta-Keeps,
}
use minc.Termio.Ioctl.{
  vfs_tiocgpgrp, vfs_tiocspgrp, vfs_tiocgflags, vfs_tiocsflags, pdo_tiocsctty, terminal_taken,
  vfs_tiocsctty,
}
use minc.Console.{ScreenInfo}
use minc.Termio.{screen_size}
use minc.Termio.Attributes.{device_kind}

-- A result that is an error has left the terminals and the task as they were.
abbrev Untouched : Terms → Leader → Result → Type 0
Untouched s l r = (e : Errno) → r.reply ≡ error e → (r.terms.ttys ≡ s.ttys) × (r.leader ≡ l)

told-Untouched :
    (windows : Windows) (s : Terms) (l l' : Leader) (r : Terms × Bool)
    → (r.1 ≡ false → (r.0.ttys ≡ s.ttys) × (l' ≡ l))
    → Untouched s l (told windows l' r)
unfolding told
told-Untouched windows s l l' (t, true) h e q = cc
told-Untouched windows s l l' (t, false) h e q = h refl

stored-Untouched {ℓ} :
    {A : Type ℓ} (windows : Windows) (f : A → Stored) (s : Terms) (l : Leader)
    (r : Terms × Option A)
    → (r.0.ttys ≡ s.ttys)
    → Untouched s l (stored_if windows f l r)
unfolding stored_if
stored-Untouched windows f s l (t, none) h e q = (h, refl)
stored-Untouched windows f s l (t, some a) h e q = (h, refl)

module _ (windows : Windows) where
  screen_size_ttys : (o : Option ScreenInfo) (s : Terms) → (screen_size windows o s).0.ttys ≡ s.ttys
  unfolding screen_size
  screen_size_ttys none s = refl
  screen_size_ttys (some i) s = refl

  pdo_size_ttys : (k : DevKind) (d : Device) (s : Terms) → (pdo_size windows k d s).0.ttys ≡ s.ttys
  unfolding pdo_size
  pdo_size_ttys dev_pty d s = screen_size_ttys (windows.screen_info d.output) s
  pdo_size_ttys dev_console d s = screen_size_ttys (windows.screen_info d.output) s
  pdo_size_ttys dev_screen d s = screen_size_ttys (windows.screen_info d.output) s
  pdo_size_ttys dev_tty d s = refl
  pdo_size_ttys dev_input d s = refl
  pdo_size_ttys dev_other d s = refl

  char_size_ttys : (k : DevKind) (n : VNode) (s : Terms) → (char_size windows k n s).0.ttys ≡ s.ttys
  unfolding char_size
  char_size_ttys dev_pty n s =
      screen_size_ttys (windows.screen_info (s.devices n.device_id).output) s
  char_size_ttys dev_console n s =
      screen_size_ttys (windows.screen_info (s.devices n.device_id).output) s
  char_size_ttys dev_screen n s = screen_size_ttys (windows.screen_info n.handle) s
  char_size_ttys _ n s = refl

  size_by_ttys : (t : FsType) (n : VNode) (s : Terms) → (size_by windows t n s).0.ttys ≡ s.ttys
  unfolding size_by
  size_by_ttys fs_pdo n s = pdo_size_ttys (device_kind n s) (s.devices n.device_id) s
  size_by_ttys fs_char n s = char_size_ttys (kind_of n.device_type) n s
  size_by_ttys fs_pipe n s = refl
  size_by_ttys _ n s = refl

  pdo_set_size_ttys :
      (k : DevKind) (d : Device) (w : WinSize) (s : Terms)
      → (pdo_set_size windows k d w s).0.0.ttys ≡ s.ttys
  unfolding pdo_set_size
  pdo_set_size_ttys dev_pty d w s = (screen_tiocswinsz-Keeps windows d.output w s).0
  pdo_set_size_ttys dev_console d w s = (screen_tiocswinsz-Keeps windows d.output w s).0
  pdo_set_size_ttys dev_screen d w s = (screen_tiocswinsz-Keeps windows d.output w s).0
  pdo_set_size_ttys _ d w s = refl

  char_set_size_ttys :
      (k : DevKind) (n : VNode) (w : WinSize) (s : Terms)
      → (char_set_size windows k n w s).0.ttys ≡ s.ttys
  unfolding char_set_size
  char_set_size_ttys dev_pty n w s =
      (screen_tiocswinsz-Keeps windows (s.devices n.device_id).output w s).0
  char_set_size_ttys dev_console n w s =
      (screen_tiocswinsz-Keeps windows (s.devices n.device_id).output w s).0
  char_set_size_ttys dev_screen n w s = (screen_tiocswinsz-Keeps windows n.handle w s).0
  char_set_size_ttys _ n w s = refl

  set_size_refused :
      (t : FsType) (n : VNode) (w : WinSize) (s : Terms)
      → (set_size_by windows t n w s).0.1 ≡ false
      → (set_size_by windows t n w s).0.0.ttys ≡ s.ttys
  unfolding set_size_by
  set_size_refused fs_pdo n w s h = pdo_set_size_ttys (device_kind n s) (s.devices n.device_id) w s
  set_size_refused fs_char n w s h = char_set_size_ttys (kind_of n.device_type) n w s
  set_size_refused fs_pipe n w s h = cc
  set_size_refused _ n w s h = refl

  group_refused :
      (t : FsType) (i g : ℕ) (s : Terms)
      → (vfs_tiocspgrp t i g s).1 ≡ false
      → (vfs_tiocspgrp t i g s).0.ttys ≡ s.ttys
  unfolding vfs_tiocspgrp
  group_refused fs_pdo i g s h = cc
  group_refused fs_char i g s h = cc
  group_refused _ i g s h = refl

  group_ttys : (t : FsType) (i : ℕ) (s : Terms) → (vfs_tiocgpgrp t i s).0.ttys ≡ s.ttys
  unfolding vfs_tiocgpgrp
  group_ttys fs_pdo i s = refl
  group_ttys fs_char i s = refl
  group_ttys _ i s = refl

  flags_ttys : (i : ℕ) (s : Terms) → (vfs_tiocgflags i s).0.ttys ≡ s.ttys
  unfolding vfs_tiocgflags
  flags_ttys i s =
      if_lem {A = Terms × Option ℕ} (λ r. r.0.ttys ≡ s.ttys) ((tty_at i s).flags == 0) refl refl

  flags_refused :
      (i f : ℕ) (s : Terms)
      → (vfs_tiocsflags i f s).1 ≡ false
      → (vfs_tiocsflags i f s).0.ttys ≡ s.ttys
  unfolding vfs_tiocsflags
  flags_refused i f s =
      if_lem {A = Terms × Bool} (λ r. r.1 ≡ false → r.0.ttys ≡ s.ttys) ((tty_at i s).flags == 0)
        (λ h. refl) (λ h. cc)

  taken_refused :
      (i : ℕ) (l : Leader) (s : Terms) (r : Terms × Bool)
      → r.0.ttys ≡ s.ttys
      → (terminal_taken windows i l r).2 ≡ false
      → ((terminal_taken windows i l r).0.ttys ≡ s.ttys) × ((terminal_taken windows i l r).1 ≡ l)
  unfolding terminal_taken
  taken_refused i l s (t, true) k h = cc
  taken_refused i l s (t, false) k h = (k, refl)

  pdo_tiocsctty_ttys :
      (t : FsType) (id : ℕ) (s : Terms) → (pdo_tiocsctty windows t id s).0.ttys ≡ s.ttys
  unfolding pdo_tiocsctty char_tiocsctty
  pdo_tiocsctty_ttys fs_char id s = refl
  pdo_tiocsctty_ttys _ id s = refl

  taking_refused :
      (n : VNode) (l : Leader) (s : Terms)
      → (vfs_tiocsctty windows n l s).2 ≡ false
      → ((vfs_tiocsctty windows n l s).0.ttys ≡ s.ttys) × ((vfs_tiocsctty windows n l s).1 ≡ l)
  unfolding vfs_tiocsctty
  taking_refused n l s =
      if_lem {A = Terms × Leader × Bool} (λ r. r.2 ≡ false → (r.0.ttys ≡ s.ttys) × (r.1 ≡ l))
        l.has_terminal (λ h. (refl, refl))
        (taken_refused n.index l s
          (pdo_tiocsctty windows (s.devices n.device_id).fs_type n.device_id s)
          (pdo_tiocsctty_ttys (s.devices n.device_id).fs_type n.device_id s))

  geta_ttys : (t : FsType) (s : Terms) → (vfs_tiocgeta windows t s).0.ttys ≡ s.ttys
  unfolding vfs_tiocgeta
  geta_ttys fs_pdo s = refl
  geta_ttys fs_char s = refl
  geta_ttys _ s = refl

  geta-Untouched :
      (n : VNode) (l : Leader) (s : Terms) (r : Terms × Bool)
      → r.0.ttys ≡ s.ttys
      → Untouched s l (term_tiocgeta windows n l r)
  unfolding term_tiocgeta
  geta-Untouched n l s (t, true) h e q = (h, refl)
  geta-Untouched n l s (t, false) h e q = (h, refl)

  seta-Untouched :
      (n : VNode) (l : Leader) (a : Attribs) (s : Terms) (r : Terms × Bool)
      → r.0.ttys ≡ s.ttys
      → Untouched s l (term_tiocseta windows n a l r)
  unfolding term_tiocseta
  seta-Untouched n l a s (t, true) h e q = cc
  seta-Untouched n l a s (t, false) h e q = (h, refl)

  pair_answer_ttys :
      (s : Terms) (o : Option (VNode × VNode)) → (pair_answer windows s o).0.ttys ≡ s.ttys
  unfolding pair_answer
  pair_answer_ttys s none = refl
  pair_answer_ttys s (some p) = refl

  ptmget_ttys : (n : VNode) (s : Terms) → (vfs_ptmget windows n s).0.ttys ≡ s.ttys
  unfolding vfs_ptmget
  ptmget_ttys n s = pair_answer_ttys s (pair_made n windows.creates_pipe windows.opens_pipe)

  ptmget-Untouched :
      (n : VNode) (l : Leader) (s : Terms) (r : Terms × Option (VNode × VNode))
      → r.0.ttys ≡ s.ttys
      → Untouched s l (term_ptmget windows n l r)
  unfolding term_ptmget
  ptmget-Untouched n l s (t, none) h e q = (h, refl)
  ptmget-Untouched n l s (t, some (m, c)) h e q = cc

  request-Untouched :
      (n : VNode) (l : Leader) (request : Request) (s : Terms)
      → Untouched s l (term_request windows n l request s)
  unfolding term_request
  request-Untouched n l flush s =
      told-Untouched windows s l l (vfs_tiocflush windows n.fs_type n s)
        (λ h. ((vfs_tiocflush-Keeps windows n.fs_type n s).0, refl))
  request-Untouched n l drain s =
      told-Untouched windows s l l (vfs_tiocdrain windows n.fs_type n s)
        (λ h. ((vfs_tiocdrain-Keeps windows n.fs_type n s).0, refl))
  request-Untouched n l take_terminal s =
      let r = vfs_tiocsctty windows n l s in
      told-Untouched windows s l r.1 (r.0, r.2) (taking_refused n l s)
  request-Untouched n l get_attribs s =
      geta-Untouched n l s (vfs_tiocgeta windows n.fs_type s) (geta_ttys n.fs_type s)
  request-Untouched n l get_size s =
      stored-Untouched windows size s l (vfs_tiocgwinsz windows n s) (size_by_ttys n.fs_type n s)
  request-Untouched n l (set_size w) s =
      told-Untouched windows s l l (vfs_tiocswinsz windows n w s).0
        (λ h. (set_size_refused n.fs_type n w s h, refl))
  request-Untouched n l (set_attribs a f d) s =
      seta-Untouched n l a s (vfs_tiocseta windows n a f d s)
        (vfs_tiocseta-Keeps windows n a f d s).0
  request-Untouched n l (set_group g) s =
      told-Untouched windows s l l (vfs_tiocspgrp n.fs_type n.index g s)
        (λ h. (group_refused n.fs_type n.index g s h, refl))
  request-Untouched n l get_group s =
      stored-Untouched windows number s l (vfs_tiocgpgrp n.fs_type n.index s)
        (group_ttys n.fs_type n.index s)
  request-Untouched n l get_discipline s =
      told-Untouched windows s l l (s, true) (λ h. (refl, refl))
  request-Untouched n l (set_flags f) s =
      told-Untouched windows s l l (vfs_tiocsflags n.index f s)
        (λ h. (flags_refused n.index f s h, refl))
  request-Untouched n l get_flags s =
      stored-Untouched windows number s l (vfs_tiocgflags n.index s) (flags_ttys n.index s)
  request-Untouched n l get_pair s =
      ptmget-Untouched n l s (vfs_ptmget windows n s) (ptmget_ttys n s)
  request-Untouched n l unknown s = λ e q. (refl, refl)

  -- Whatever term_ioctl is asked of a terminal, by any task on any file: where the int returned is an
  -- error, every terminal and the calling task, with its descriptors, are as they were.
  pub term_ioctl_refused :
      (n : VNode) (l : Leader) (request : Request) (s : Terms) (e : Errno)
      → (term_ioctl windows n l request s).reply ≡ error e
      → ((term_ioctl windows n l request s).terms.ttys ≡ s.ttys)
        × ((term_ioctl windows n l request s).leader ≡ l)
  unfolding term_ioctl
  term_ioctl_refused n l request s =
      if_lem (Untouched s l) (n.access == 0) (λ e q. (refl, refl)) (request-Untouched n l request s)
