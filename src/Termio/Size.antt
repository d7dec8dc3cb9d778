-- ===== src/Termio/Size.antt =====
-- The size of the window of a terminal: proofs.
use minc.Prelude.{◌<◌, ◌≡◌, refl, ap, ◌∙◌, false, length, ◌==◌}
use minc.Descriptor.{VNode, FsType, fs_pipe, fs_pdo}
use minc.Descriptor.Table.{value}
use minc.Termio.{WinSize, Tty, dev_tty, Windows, Terms}
use minc.Termio.Dispatch.{Leader, tty_at, size_by, set_size_by}
use minc.Termio.Ioctl.{get_size, set_size, size, told, stored_if, term_ioctl}
use minc.Termio.Attributes.{device_kind, tty_at_put}

module _ (windows : Windows) where
  -- The size set on a pipe is kept by its terminal and given back.
  pub term_ioctl_pipe_size :
      (n : VNode) (l : Leader) (w : WinSize) (s : Terms)
      → (n.access == 0) ≡ false
      → n.index < length s.ttys
      → n.fs_type ≡ fs_pipe
      → (term_ioctl windows n l get_size (term_ioctl windows n l (set_size w) s).terms).stored
        ≡ size w
  unfolding term_ioctl stored_if told
  term_ioctl_pipe_size n l w s opened i t = rw opened (
      ap
        (λ (k : FsType).
          (stored_if windows size l (size_by windows k n (set_size_by windows k n w s).0.0)).stored)
        t
      ∙ ap (λ (u : Tty). size u.win_size)
          (tty_at_put n.index (record (tty_at n.index s) { win_size = w }) s i))

  -- Setting the size of the window of a terminal that is a device object: the call reports success
  -- and changes nothing at all, and the size that the terminal had is written over the one that was
  -- passed. A call that asks for the size then gives the old one.
  pub term_ioctl_tty_size :
      (n : VNode) (l : Leader) (w : WinSize) (s : Terms)
      → (n.access == 0) ≡ false
      → n.fs_type ≡ fs_pdo
      → device_kind n s ≡ dev_tty
      → (term_ioctl windows n l (set_size w) s ≡ record {
        terms = s;
        leader = l;
        stored = size (tty_at (s.devices n.device_id).index s).win_size;
        reply = value 0;
      })
        × ((term_ioctl windows n l get_size (term_ioctl windows n l (set_size w) s).terms).stored
            ≡ size (tty_at (s.devices n.device_id).index s).win_size)
  unfolding term_ioctl stored_if told
  term_ioctl_tty_size n l w s opened t k = (rw (opened, t, k) refl, rw (opened, t, k) (rw k refl))
