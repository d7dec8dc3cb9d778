-- ===== src/Termio/Keeps.antt =====
-- That asking a console for its settings, and waiting for or emptying its buffers, leaves the table of
-- terminals and the devices alone: lemmas.
use minc.Prelude.{ℕ, ◌≡◌, refl, ◌∙◌, Bool, true, false, if◌then◌else◌, if_lem}
use minc.Descriptor.{VNode, FsType, fs_char, fs_pdo}
use minc.Termio.{
  WinSize, Attribs, Device, DevKind, dev_console, dev_input, dev_screen, dev_pty, kind_of, TermCall,
  Windows, Terms, call, and_then, screen_tiocswinsz, input_tiocflush, screen_tiocdrain,
  con_tiocseta,
}
use minc.Termio.Dispatch.{
  pdo_tiocflush, char_tiocflush, vfs_tiocflush, pdo_tiocdrain, char_tiocdrain, vfs_tiocdrain,
  pdo_tiocseta, char_seta_call, char_tiocseta, seta_by, vfs_tiocseta,
}

-- The terminals and the devices stand as they did.
abbrev pub Keeps : Terms → Terms × Bool → Type 0
Keeps s r = (r.0.ttys ≡ s.ttys) × (r.0.devices ≡ s.devices)

module _ (windows : Windows) where
  call-Keeps : (c : TermCall) (s : Terms) → Keeps s (call windows c s)
  unfolding call
  call-Keeps c s = if_lem (Keeps s) (windows.accepts c) (refl, refl) (refl, refl)

  and_then-Keeps :
      (s : Terms) (r : Terms × Bool) (next : Terms → Terms × Bool)
      → Keeps s r
      → ((t : Terms) → Keeps t (next t))
      → Keeps s (and_then windows r next)
  unfolding and_then
  and_then-Keeps s (t, true) next h k = ((k t).0 ∙ h.0, (k t).1 ∙ h.1)
  and_then-Keeps s (t, false) next h k = h

  con_tiocseta-Keeps : (d : Device) (a : Attribs) (s : Terms) → Keeps s (con_tiocseta windows d a s)
  unfolding con_tiocseta
  con_tiocseta-Keeps d a s =
      and_then-Keeps s (call windows _ s) (call windows _) (call-Keeps _ s) (λ t. call-Keeps _ t)

  pub screen_tiocswinsz-Keeps :
      (h : ℕ) (w : WinSize) (s : Terms) → Keeps s (screen_tiocswinsz windows h w s)
  unfolding screen_tiocswinsz
  screen_tiocswinsz-Keeps h w s =
      and_then-Keeps s (call windows _ s) (call windows _) (call-Keeps _ s) (λ t. call-Keeps _ t)

  pdo_tiocseta-Keeps :
      (k : DevKind) (d : Device) (a : Attribs) (s : Terms) → Keeps s (pdo_tiocseta windows k d a s)
  unfolding pdo_tiocseta
  pdo_tiocseta-Keeps dev_pty d a s = con_tiocseta-Keeps d a s
  pdo_tiocseta-Keeps dev_console d a s = con_tiocseta-Keeps d a s
  pdo_tiocseta-Keeps _ d a s = (refl, refl)

  char_seta_call-Keeps :
      (k : DevKind) (n : VNode) (a : Attribs) (s : Terms) → Keeps s (char_seta_call windows k n a s)
  unfolding char_seta_call
  char_seta_call-Keeps dev_console n a s = con_tiocseta-Keeps (s.devices n.device_id) a s
  char_seta_call-Keeps dev_pty n a s = con_tiocseta-Keeps (s.devices n.device_id) a s
  char_seta_call-Keeps dev_input n a s = call-Keeps _ s
  char_seta_call-Keeps dev_screen n a s = call-Keeps _ s
  char_seta_call-Keeps _ n a s = (refl, refl)

  seta_by-Keeps :
      (t : FsType) (n : VNode) (a : Attribs) (s : Terms) → Keeps s (seta_by windows t n a s)
  unfolding seta_by char_tiocseta
  seta_by-Keeps fs_pdo n a s =
      pdo_tiocseta-Keeps (kind_of (s.devices n.device_id).device_type) (s.devices n.device_id) a s
  seta_by-Keeps fs_char n a s = char_seta_call-Keeps (kind_of n.device_type) n a s
  seta_by-Keeps _ n a s = (refl, refl)

  pdo_tiocflush-Keeps :
      (k : DevKind) (d : Device) (s : Terms) → Keeps s (pdo_tiocflush windows k d s)
  unfolding pdo_tiocflush input_tiocflush
  pdo_tiocflush-Keeps dev_pty d s = call-Keeps _ s
  pdo_tiocflush-Keeps dev_console d s = call-Keeps _ s
  pdo_tiocflush-Keeps _ d s = (refl, refl)

  char_tiocflush-Keeps :
      (k : DevKind) (n : VNode) (s : Terms) → Keeps s (char_tiocflush windows k n s)
  unfolding char_tiocflush input_tiocflush
  char_tiocflush-Keeps dev_input n s = call-Keeps _ s
  char_tiocflush-Keeps _ n s = (refl, refl)

  pub vfs_tiocflush-Keeps :
      (t : FsType) (n : VNode) (s : Terms) → Keeps s (vfs_tiocflush windows t n s)
  unfolding vfs_tiocflush
  vfs_tiocflush-Keeps fs_pdo n s =
      pdo_tiocflush-Keeps (kind_of (s.devices n.device_id).device_type) (s.devices n.device_id) s
  vfs_tiocflush-Keeps fs_char n s = char_tiocflush-Keeps (kind_of n.device_type) n s
  vfs_tiocflush-Keeps _ n s = (refl, refl)

  pdo_tiocdrain-Keeps :
      (k : DevKind) (d : Device) (s : Terms) → Keeps s (pdo_tiocdrain windows k d s)
  unfolding pdo_tiocdrain screen_tiocdrain
  pdo_tiocdrain-Keeps dev_pty d s = (refl, refl)
  pdo_tiocdrain-Keeps dev_console d s = (refl, refl)
  pdo_tiocdrain-Keeps _ d s = (refl, refl)

  char_tiocdrain-Keeps :
      (k : DevKind) (n : VNode) (s : Terms) → Keeps s (char_tiocdrain windows k n s)
  unfolding char_tiocdrain screen_tiocdrain
  char_tiocdrain-Keeps dev_screen n s = (refl, refl)
  char_tiocdrain-Keeps _ n s = (refl, refl)

  pub vfs_tiocdrain-Keeps :
      (t : FsType) (n : VNode) (s : Terms) → Keeps s (vfs_tiocdrain windows t n s)
  unfolding vfs_tiocdrain
  vfs_tiocdrain-Keeps fs_pdo n s =
      pdo_tiocdrain-Keeps (kind_of (s.devices n.device_id).device_type) (s.devices n.device_id) s
  vfs_tiocdrain-Keeps fs_char n s = char_tiocdrain-Keeps (kind_of n.device_type) n s
  vfs_tiocdrain-Keeps _ n s = (refl, refl)

  Keeps-trans : (s : Terms) (r q : Terms × Bool) → Keeps s r → Keeps r.0 q → Keeps s q
  Keeps-trans s r q h k = (k.0 ∙ h.0, k.1 ∙ h.1)

  -- The state in which the settings are asked for.
  abbrev drained : VNode → Bool → Terms → Terms
  drained n d s = if d then (vfs_tiocdrain windows n.fs_type n s).0 else s

  drained-Keeps : (n : VNode) (d : Bool) (s : Terms) → Keeps s (drained n d s, true)
  drained-Keeps n true s = vfs_tiocdrain-Keeps n.fs_type n s
  drained-Keeps n false s = (refl, refl)

  pub vfs_tiocseta-Keeps :
      (n : VNode) (a : Attribs) (f d : Bool) (s : Terms) → Keeps s (vfs_tiocseta windows n a f d s)
  unfolding vfs_tiocseta
  vfs_tiocseta-Keeps n a f d s =
      let s1 = drained n d s in
      let r = seta_by windows n.fs_type n a s1 in
      let k = Keeps-trans s (s1, true) r (drained-Keeps n d s) (seta_by-Keeps n.fs_type n a s1) in
      if_lem (λ (t : Terms). Keeps s (t, r.1)) f
        (Keeps-trans s r (vfs_tiocflush windows n.fs_type n r.0) k
          (vfs_tiocflush-Keeps n.fs_type n r.0))
        k
