-- ===== src/Lib.antt =====
-- MinC is a POSIX system on Windows: libposix gives OpenBSD programs the system calls of POSIX by
-- calls of Windows. This library models, from the source:
--
-- * the terminal (libposix/vfs/char). screen_write of char_screen.c takes bytes, passes text to
--   the console and collects escape sequences, which AnsiControl of char_ansi.c and the DEC
--   functions of char_vt100.c carry out. Console is the state: the part of WIN_TTY and of the
--   globals of vfs.c that output uses. Ansi.Attribs, Ansi.Cursor, Ansi.Scroll, Ansi.Erase and
--   Ansi.Mode have the functions of char_ansi.c by what they change, Ansi.Control the switch over
--   them, Vt100 those of char_vt100.c, Screen the helpers of char_screen.c, and Screen.Write its
--   parser and its loop.
-- * errors (libposix/sys/errno.c): Errno has errno_posix as a table.
-- * signals (libposix/sys/signal.c, libposix/vfs/vfs_signal.c, pid_win of libposix/sys/proc.c):
--   Signal.Tables has the tables of signals and events, Signal.Action the calls of a task on its
--   own signals, Signal.Deliver what a signal does when it arrives, Signal.Kill who gets it, and
--   Signal.Suspend the wait for a signal; Signal.Exception makes a signal of an exception.
-- * file descriptors (libposix/sys/vnode.c, and the parts of libposix/sys/fcntl.c,
--   libposix/sys/unistd.c, libposix/vfs/vfs_fcntl.c, libposix/vfs/vfs_unistd.c and of the drivers
--   that copy and close them): Descriptor.Flags has the flags of open and fcntl,
--   Descriptor.Duplicate the copy, Descriptor.Close the closing, Descriptor.Lock the record locks,
--   Descriptor.Table the table of the open files of a task with the system calls on it, and
--   Descriptor.Fcntl sys_fcntl and sys_flock. A failing system call gives errno_posix of the last
--   error of Windows, here as a field of the state.
-- * file names, strings and paths (libposix/win/win_libgen.c, libposix/win/win_string.c,
--   libposix/win/win_wchar.c, libposix/vfs/vfs_libgen.c, libposix/vfs/vfs_namei.c with the lookups
--   of the drivers, and libposix/sys/namei.c): Libgen takes file names apart, Strings copies into
--   buffers, Namei reads the components of a path, Namei.Find looks them up, and Namei.Posix makes
--   the path of POSIX from the name.
-- * waiting for children (libposix/sys/wait.c, libposix/vfs/vfs_wait.c, proc_close and proc_poll of
--   libposix/vfs/process): Wait, over the table of tasks.
-- * terminal control (libposix/sys/termio.c, libposix/vfs/vfs_termio.c, and the pdo and char
--   drivers): Termio has the data and the calls on a console, Termio.Dispatch the choice by kind of
--   file and device, Termio.Ioctl the requests.
-- * poll and select (libposix/sys/poll.c, libposix/sys/select.c, libposix/vfs/vfs_poll.c and the
--   drivers): Poll and Poll.Select.
-- * reading from a console (libposix/vfs/char/char_input.c, with the tables of char_interix.c):
--   Input.
-- * the table of tasks, fork and exec (ProcCreateTask, proc_dup and proc_execve of
--   libposix/vfs/process) and process groups (libposix/sys/unistd.c): Process.
-- * the modes of files (libposix/sys/stat.c) and their access control lists
--   (libposix/vfs/vfs_acl.c, and disk_fchmod of libposix/vfs/disk/disk_stat.c): Stat and Acl. The
--   ids of users and groups (libposix/sys/stat.c): Rid.
-- * the interval timer (libposix/vfs/vfs_time.c, and timeval_win of libposix/sys/time.c): Timer.
--
-- C functions are functions from a state to a state; the name is that of the source in snake
-- case, without the prefix Ansi, Screen or DEC where a module stands for it. The calls of
-- Windows are collected in a list, the latest first. What Windows answers is a parameter: the
-- record Console for the console, Signal.System for messages and events, Descriptor.Host and
-- Wait.Handles for handles, Namei.Volume for the files of a disk, Termio.Windows for a console's
-- settings and new pipes, Poll.Look for what files report at one moment, Timer.Clockwork for timers,
-- Acl.Calls for security descriptors and Input.Wake for what a wait for the console brings. A task
-- that sleeps is given the list of the ways in which its sleeps end; if the list runs out, it
-- still sleeps, and there is no result. A SHORT, a LONG, a WORD and a DWORD are numbers with the
-- conversions of Prelude.Words written out where the source converts. The LONG in which
-- screen_write counts the bytes that are left is not wrapped. atoi and the printing of a
-- number are those of the C library (Libc). A store past the end of the sequence buffer sets a
-- flag in the model; a read outside the table of signals or of tasks is an outcome of its own.
--
-- The loop of screen_write recurses on the number of bytes left, which it decreases in each round,
-- so no fuel is needed; the loops over tasks and descriptors recurse on their tables. The tables
-- are those of the source: 33 signals, 80 tasks, 64 descriptors. The loop of vfs_lookup has fuel,
-- one round more than the source has characters: each round that goes on reads one at least, and
-- no kind of link changes what is left of the source. The loop of input_read has fuel
-- for every byte, wait and character of the clipboard. The loops that sleep recurse on their
-- sleeps, the copying of strings on the source or the buffer; a write past the end of a buffer
-- gives no result.
--
-- Not modelled: the text of error messages, the records of ktrace but for signals, the
-- stop of a task by a signal and the end of a process, which are calls here, the conversion of text
-- between UTF-8 and wide characters (a parameter of Namei.Posix), pathat_win with its flags and
-- path lengths, the floating point in which the code converts times, what the input of a
-- console and pipes and sockets report to poll before it is masked (parameters), the Windows API
-- itself, and the other drivers and system calls: files and directories, sockets, the
-- copying of memory in a fork, memory, and
-- the system calls for time. The OpenBSD programs and the libraries
-- beside libposix are other projects' code.
pub mod Prelude
pub mod Libc
pub mod Libgen
pub mod Strings
pub mod Namei
pub mod Console
pub mod Ansi
pub mod Vt100
pub mod Screen
pub mod Errno
pub mod Signal
pub mod Descriptor
pub mod Wait
pub mod Termio
pub mod Stat
pub mod Acl
pub mod Poll
pub mod Timer
pub mod Input
pub mod Process
pub mod Rid
mod Tests
