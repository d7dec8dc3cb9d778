-- ===== src/Tests/Ioctls.antt =====
-- Instances of the theorems on terminal control.
use minc.Prelude.{ℕ, ◌≡◌, ◌≢◌, refl, true, false, none, [], ◌∷◌, arith}
use minc.Errno.{enotty}
use minc.Descriptor.{VNode, empty, fs_char, fs_disk}
use minc.Descriptor.Table.{value, error}
use minc.Termio.{Attribs, Device, Windows, Terms}
use minc.Termio.Dispatch.{Leader, no_tty, tty_at}
use minc.Termio.Ioctl.{get_attribs, set_attribs, set_group, attribs, term_ioctl}
use minc.Termio.Attributes.{term_ioctl_set_get}
use minc.Termio.Refusal.{term_ioctl_refused}

abbrev windows : Windows
windows = record {
  accepts = λ c. true;
  screen_info = λ h. none;
  failure_error = 6;
  con_in = 3;
  con_out = 7;
  creates_pipe = none;
  opens_pipe = none;
}

abbrev device : Device
device = record {
  device_type = 0x518;
  fs_type = fs_char;
  event = 0;
  input = 0;
  output = 0;
  index = 0;
  name = [];
}

abbrev terms : Terms
terms = record { ttys = no_tty ∷ no_tty ∷ []; devices = λ id. device; calls = []; last_error = 0 }

abbrev leader : Leader
leader = record { session_id = 1; group_id = 1; has_terminal = false; terminal = 0; nodes = [] }

abbrev console : VNode
console = record empty { fs_type = fs_char; device_type = 0x501; access = 3; index = 1 }

abbrev document : VNode
document = record empty { fs_type = fs_disk; access = 3 }

abbrev raw : Attribs
raw = record {
  i_flags = 1;
  o_flags = 2;
  c_flags = 3;
  l_flags = 4;
  control = [];
  i_speed = 9600;
  o_speed = 9600;
}

term_ioctl_set_get_example :
    ((term_ioctl windows console leader (set_attribs raw true true) terms).reply ≡ value 0)
    × ((term_ioctl windows console leader get_attribs
          (term_ioctl windows console leader (set_attribs raw true true) terms).terms).stored
        ≡ attribs raw)
    × (tty_at 1 (term_ioctl windows console leader (set_attribs raw true true) terms).terms
        ≡ record (tty_at 1 terms) { attribs = raw })
    × ((j : ℕ)
        → 1 ≢ j
        → tty_at j (term_ioctl windows console leader (set_attribs raw true true) terms).terms
          ≡ tty_at j terms)
term_ioctl_set_get_example =
    term_ioctl_set_get windows console leader raw true true terms refl (omega arith) tt

term_ioctl_refused_example :
    ((term_ioctl windows document leader (set_group 5) terms).terms.ttys ≡ terms.ttys)
    × ((term_ioctl windows document leader (set_group 5) terms).leader ≡ leader)
unfolding term_ioctl minc.Descriptor.Table.negated minc.Errno.errno_posix
term_ioctl_refused_example =
    term_ioctl_refused windows document leader (set_group 5) terms enotty refl
