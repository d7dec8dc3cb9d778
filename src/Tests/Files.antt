-- ===== src/Tests/Files.antt =====
-- The theorems on file descriptors, at concrete inputs.
use minc.Prelude.{arith, ℕ, ◌+◌, ◌≡◌, ◌≤◌, refl, true, false, [], ◌∷◌, some, replicate, set, ◌⊎◌}
use minc.Errno.{emfile}
use minc.Descriptor.{VNode, Host, Files, empty, fs_disk, fs_pipe, vreg}
use minc.Descriptor.Flags.{flflags_posix, flflags_win, set_status_flags}
use minc.Descriptor.Flags.RoundTrip.{flflags_posix-flflags_win, both, status, reported_mode, flag}
use minc.Descriptor.Close.{vfs_close}
use minc.Descriptor.Table.{fd_posix, value, error}
use minc.Descriptor.Table.Lowest.{fd_posix-Lowest, Lowest, is_free}
use minc.Prelude.Int.{pos}
use minc.Descriptor.Table.{sys_dup2, sys_close}
use minc.Descriptor.Table.Local.{sys_dup2-Elsewhere, Elsewhere}
use minc.Descriptor.Lock.{Flock, file_f_setlk, fcntl_f_getlk}
use minc.Descriptor.Lock.Report.{fcntl_f_getlk-file_f_setlk}
use minc.Descriptor.Table.Closed.{vfs_close-clears}

abbrev document : VNode
document = record empty { file_type = vreg; fs_type = fs_disk; access = 23; handle = 100 }

abbrev host : Host
host = record {
  duplicate_handle = λ handle inherit. some (handle + 1);
  access_of = λ handle. 23;
  closes_handle = λ handle. true;
  closes_search = λ search. true;
  closes_socket = λ socket. true;
  closes_event = λ event. true;
  sets_event = λ event. true;
  error = 6;
  unlocks = λ handle offset size. false;
  unlock_error = 158;
  locks = λ handle lock_flags offset size. true;
  sets_pipe_state = λ handle mode. true;
  selects_events = λ socket event events. true;
  device_input = λ id. 200;
  device_output = λ id. 201;
  device_event = λ id. 202;
  device_fs_type = λ id. fs_disk;
}

abbrev files : Files
files = record { nodes = document ∷ document ∷ replicate 62 empty; calls = []; last_error = 0 }

flflags_posix-flflags_win_example :
    flflags_posix (set_status_flags document (flflags_win (status both true false true)))
    ≡ reported_mode both false + flag true 4 + flag true 0x10000
flflags_posix-flflags_win_example = flflags_posix-flflags_win document both true false true

fd_posix-Lowest_example :
    ((fd : ℕ) × ((fd_posix files document 0 ≡ (
      record files { nodes = set files.nodes fd (record document { file_id = fd }) },
      value fd,
    ))
        × Lowest 0 files.nodes fd))
    ⊎ ((fd_posix files document 0 ≡ (files, error emfile))
        × ((m : ℕ) → 0 ≤ m → is_free files.nodes m ≡ false))
fd_posix-Lowest_example = fd_posix-Lowest files document 0

vfs_close-clears_example : (vfs_close host document files).1 ≡ record empty { file_id = 0 }
unfolding vfs_close minc.Descriptor.Close.close_by minc.Descriptor.Close.keep_id
    minc.Descriptor.Close.disk_close minc.Descriptor.Close.file_close
    minc.Descriptor.Close.file_result minc.Descriptor.Close.release
vfs_close-clears_example = vfs_close-clears host document files refl refl

sys_dup2-Elsewhere_example :
    Elsewhere 5 files.nodes (sys_dup2 host files (pos 1) (pos 5)).0.nodes
    × Elsewhere 5 files.nodes (sys_close host files (pos 5)).0.nodes
sys_dup2-Elsewhere_example = sys_dup2-Elsewhere host files 1 5 (omega arith) (omega arith)

-- A host where the region is now locked.
abbrev later : Host
later = record host { unlocks = λ handle offset size. true }

abbrev any_lock : Flock
any_lock = record { start = 0; len = 0; type = 3 }

fcntl_f_getlk-file_f_setlk_example :
    let held = (file_f_setlk host 3 100 50 document files).1 in
    (fcntl_f_getlk held any_lock ≡ record any_lock { start = 100; len = 50 })
    × (fcntl_f_getlk (file_f_setlk later 16 100 50 held files).1 any_lock
        ≡ record any_lock { type = 2 })
fcntl_f_getlk-file_f_setlk_example =
    fcntl_f_getlk-file_f_setlk host later document files files 3 100 50 any_lock
      (record { some_bytes = omega arith; size_small = omega arith; product_small = omega arith })
      refl refl refl refl refl refl refl
