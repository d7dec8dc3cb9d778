-- ===== src/Tests/Polling.antt =====
-- An instance of the theorem on poll.
use minc.Prelude.{false, suc, ◌≡◌, refl, none, some, List, [], ◌∷◌}
use minc.Prelude.Int.{pos, negsuc}
use minc.Descriptor.{VNode, empty, fs_disk, fs_char}
use minc.Termio.{Device}
use minc.Poll.{PollFd, Entry, Look, watched, sys_poll}
use minc.Poll.Count.{count_ready, sys_poll_counts}

abbrev document : VNode
document = record empty { fs_type = fs_disk; access = 3 }

abbrev device : Device
device = record {
  device_type = 0;
  fs_type = fs_char;
  event = 0;
  input = 0;
  output = 0;
  index = 0;
  name = [];
}

abbrev look : Look
look = record {
  input_events = λ h. (0, false);
  mailslot = λ h. none;
  pipe_events = λ n. none;
  socket_events = λ n. none;
  look_error = 6;
}

-- A document to be read, and a number that is negative.
abbrev asked : List PollFd
asked =
    record { fd = pos 0; events = 0x5; revents = 0 }
    ∷ record { fd = negsuc 0; events = 0x1; revents = 7 }
    ∷ []

abbrev answered : List Entry
answered =
    record { info = record { fd = pos 0; events = 0x5; revents = 0x1 }; node = some document }
    ∷ record { info = record { fd = negsuc 0; events = 0x1; revents = 0 }; node = none }
    ∷ []

sys_poll_counts_example : suc 0 ≡ count_ready answered
unfolding watched sys_poll
sys_poll_counts_example =
    sys_poll_counts (λ id. device) (document ∷ []) asked (pos 0) look [] answered 0 (tt, (tt, tt))
      refl
