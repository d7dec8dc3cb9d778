-- ===== src/Process/Channels.antt =====
-- The descriptors of a child, and those of the program that it runs: proofs.
use minc.Prelude.{
  ℕ, zero, suc, ◌+◌, ◌<◌, ◌≡◌, refl, sym, ap, ◌∙◌, ◌⊎◌, inl, inr, Bool, true, false, not, Option,
  none, some, List, [], ◌∷◌, get_elem?, get_or, set, get_elem?-set_self, length, ◌==◌,
  if◌then◌else◌, if_lem, arith,
}
use mathlib.Core.Path.{subst}
use minc.Descriptor.{
  VNode, FsType, fs_unknown, fs_disk, fs_char, fs_pipe, fs_mailslot, fs_pdo, fs_drive, fs_process,
  fs_winsock, fs_registry, fs_volume, fs_npf, fs_link, fs_ndis, fs_shell, Host, Files, empty,
}
use minc.Descriptor.Flags.{has}
use minc.Descriptor.Duplicate.{
  vfs_f_dupfd, duplicate_by, disk_result, char_result, pipe_result, pipe_event, pdo_result,
  mail_result, duplicate, duplicate_device, inherits, device_handle,
}
use minc.Descriptor.Close.{vfs_close}
use minc.Descriptor.Table.Closed.{vfs_close-clears}
use minc.Process.{
  without_answer, dup_channel, dup_channels, inherit_channel, inherit_channels, Process, Caller,
  ThreadStart, ExecAnswers, proc_create_task, child_of, inherit_trace, dup_into, proc_dup,
  started_task, exec_created, proc_execve,
}

-- What a copy leaves alone in the node that it fills; the access of a mailslot is that of its handle.
abbrev pub Keeps : FsType → VNode → VNode → Type 0
Keeps t r m =
    (m.close_exec ≡ r.close_exec)
    × (m.flags ≡ r.flags)
    × (m.file_id ≡ r.file_id)
    × (m.file_type ≡ r.file_type)
    × ((m.access ≡ r.access) ⊎ (t ≡ fs_mailslot))

kept : (t : FsType) (r : VNode) → Keeps t r r
kept t r = (refl, refl, refl, refl, inl refl)

module _ (sys : Host) where
  disk-Keeps : (t : FsType) (r : VNode) (x : Files × Option ℕ) → Keeps t r (disk_result r x).1
  unfolding disk_result
  disk-Keeps t r (f, none) = kept t r
  disk-Keeps t r (f, some h) = (refl, refl, refl, refl, inl refl)

  char-Keeps : (t : FsType) (r : VNode) (x : Files × Option ℕ) → Keeps t r (char_result r x).1
  unfolding char_result
  char-Keeps t r (f, none) = kept t r
  char-Keeps t r (f, some h) = (refl, refl, refl, refl, inl refl)

  event-Keeps :
      (t : FsType) (r : VNode) (h : ℕ) (x : Files × Option ℕ) → Keeps t r (pipe_event r h x).1
  unfolding pipe_event
  event-Keeps t r h (f, none) = kept t r
  event-Keeps t r h (f, some e) = (refl, refl, refl, refl, inl refl)

  pipe-Keeps :
      (t : FsType) (n r : VNode) (x : Files × Option ℕ) → Keeps t r (pipe_result sys n r x).1
  unfolding pipe_result
  pipe-Keeps t n r (f, none) = kept t r
  pipe-Keeps t n r (f, some h) = event-Keeps t r h (duplicate sys n.event (inherits n) f)

  pdo-Keeps : (t : FsType) (n r : VNode) (x : Files × Option ℕ) → Keeps t r (pdo_result sys n r x).1
  unfolding pdo_result
  pdo-Keeps t n r (f, none) = kept t r
  pdo-Keeps t n r (f, some h) = (refl, refl, refl, refl, inl refl)

  mail-Keeps : (r : VNode) (x : Files × Option ℕ) → Keeps fs_mailslot r (mail_result sys r x).1
  unfolding mail_result
  mail-Keeps r (f, none) = kept fs_mailslot r
  mail-Keeps r (f, some h) = (refl, refl, refl, refl, inr refl)

  duplicate_by-Keeps :
      (t : FsType) (n r : VNode) (f : Files) → Keeps t r (duplicate_by t sys n r f).1
  unfolding duplicate_by
  duplicate_by-Keeps fs_winsock n r f =
      pipe-Keeps fs_winsock n r (duplicate sys n.handle (inherits n) f)
  duplicate_by-Keeps fs_pipe n r f = pipe-Keeps fs_pipe n r (duplicate sys n.handle (inherits n) f)
  duplicate_by-Keeps fs_char n r f = char-Keeps fs_char r (duplicate sys n.handle (inherits n) f)
  duplicate_by-Keeps fs_disk n r f = disk-Keeps fs_disk r (duplicate sys n.handle (inherits n) f)
  duplicate_by-Keeps fs_pdo n r f =
      pdo-Keeps fs_pdo n r (duplicate_device sys (device_handle sys n r) f)
  duplicate_by-Keeps fs_mailslot n r f =
      mail-Keeps r (duplicate_device sys (device_handle sys n r) f)
  duplicate_by-Keeps fs_unknown n r f = kept fs_unknown r
  duplicate_by-Keeps fs_drive n r f = kept fs_drive r
  duplicate_by-Keeps fs_process n r f = kept fs_process r
  duplicate_by-Keeps fs_registry n r f = kept fs_registry r
  duplicate_by-Keeps fs_volume n r f = kept fs_volume r
  duplicate_by-Keeps fs_npf n r f = kept fs_npf r
  duplicate_by-Keeps fs_link n r f = kept fs_link r
  duplicate_by-Keeps fs_ndis n r f = kept fs_ndis r
  duplicate_by-Keeps fs_shell n r f = kept fs_shell r

without_answer-node : (r : Files × VNode × Bool) → (without_answer r).1 ≡ r.1
unfolding without_answer
without_answer-node (f, n, b) = refl

-- What fork makes of one descriptor: i is its number, n the parent's node, r what was in the child's
-- place, and m the child's node.
abbrev pub Copied : ℕ → VNode → VNode → VNode → Type 0
Copied i n r m =
    ((n.access == 0) ≡ true → m ≡ record r { file_id = i })
    × ((n.access == 0) ≡ false
        → (m.close_exec ≡ n.close_exec)
          × (m.flags ≡ n.flags)
          × (m.file_id ≡ i)
          × (m.file_type ≡ n.file_type)
          × ((m.access ≡ n.access) ⊎ (n.fs_type ≡ fs_mailslot)))

-- What exec makes of one: n before and m after it.
abbrev pub Inherited : Host → VNode → VNode → Type 0
Inherited sys n m =
    ((n.access == 0) ≡ true → m ≡ n)
    × ((n.access == 0) ≡ false
        → n.close_exec ≡ true
        → (n.handle == 0) ≡ false
        → ((f : Files) → (vfs_close sys n f).2 ≡ true)
        → m ≡ record empty { file_id = n.file_id })
    × ((n.access == 0) ≡ false
        → n.close_exec ≡ false
        → (m.close_exec ≡ false)
          × (m.flags ≡ n.flags)
          × (m.file_id ≡ n.file_id)
          × (m.file_type ≡ n.file_type)
          × ((m.access ≡ n.access) ⊎ (n.fs_type ≡ fs_mailslot)))

module _ (sys : Host) where
  dup_channel-Copied : (i : ℕ) (n r : VNode) (f : Files) → Copied i n r (dup_channel sys i n r f).1
  unfolding dup_channel vfs_f_dupfd
  dup_channel-Copied i n r f = (
    (λ e. rw e refl),
    (λ e.
        rw (e, without_answer-node (vfs_f_dupfd sys n n.close_exec i f))
          (duplicate_by-Keeps sys n.fs_type n (record n { close_exec = n.close_exec; file_id = i })
            f)),
  )

  dup_channels-Copied :
      (i fd : ℕ) (ns rs : List VNode) (f : Files) (n r : VNode)
      → get_elem? ns fd ≡ some n
      → get_elem? rs fd ≡ some r
      → (m : VNode) × (get_elem? (dup_channels sys i ns rs f).1 fd ≡ some m) × Copied (i + fd) n r m
  unfolding dup_channels
  dup_channels-Copied i fd [] rs f n r p q = cc
  dup_channels-Copied i fd (k ∷ ns) [] f n r p q = cc
  dup_channels-Copied i zero (k ∷ ns) (l ∷ rs) f n r p q =
      let k' : k ≡ n = cc in
      let l' : l ≡ r = cc in
      let m = (dup_channel sys i k l f).1 in
      let here : i ≡ i + 0 = omega arith in
      (
        m,
        refl,
        subst (λ j. Copied j n r m) here
            (subst (λ x. Copied i x r m) k'
              (subst (λ y. Copied i k y m) l' (dup_channel-Copied i k l f))),
      )
  dup_channels-Copied i (suc fd) (k ∷ ns) (l ∷ rs) f n r p q =
      let (m, e, c) = dup_channels-Copied (suc i) fd ns rs (dup_channel sys i k l f).0 n r p q in
      let next : suc i + fd ≡ i + suc fd = omega arith in (m, e, subst (λ j. Copied j n r m) next c)

  module _ (into : Host) where
    copied_channel : VNode → Files → Files × VNode
    copied_channel n f =
        if not (inherits n) then without_answer (duplicate_by n.fs_type into n n f) else (f, n)

    open_channel :
        (n : VNode) (f : Files)
        → (n.access == 0) ≡ false
        → n.close_exec ≡ false
        → (inherit_channel sys into n f).1 ≡ (copied_channel n f).1
    unfolding inherit_channel copied_channel
    open_channel n f e c =
        ap
          (λ x.
            (if x
              then (f, n)
              else if n.close_exec
              then without_answer (vfs_close sys n f)
              else copied_channel n f).1)
          e
        ∙ ap (λ x. (if x then without_answer (vfs_close sys n f) else copied_channel n f).1) c

    copied_channel-Keeps : (n : VNode) (f : Files) → Keeps n.fs_type n (copied_channel n f).1
    unfolding copied_channel
    copied_channel-Keeps n f =
        if_lem (λ (x : Files × VNode). Keeps n.fs_type n x.1) (not (inherits n))
          (subst (Keeps n.fs_type n) (sym (without_answer-node (duplicate_by n.fs_type into n n f)))
            (duplicate_by-Keeps into n.fs_type n n f))
          (kept n.fs_type n)

    free_channel :
        (n : VNode) (f : Files) → (n.access == 0) ≡ true → (inherit_channel sys into n f).1 ≡ n
    unfolding inherit_channel copied_channel
    free_channel n f e =
        ap
          (λ x.
            (if x
              then (f, n)
              else if n.close_exec
              then without_answer (vfs_close sys n f)
              else copied_channel n f).1)
          e

    closed_channel :
        (n : VNode) (f : Files)
        → (n.access == 0) ≡ false
        → n.close_exec ≡ true
        → (inherit_channel sys into n f).1 ≡ (vfs_close sys n f).1
    unfolding inherit_channel copied_channel
    closed_channel n f e c =
        ap
          (λ x.
            (if x
              then (f, n)
              else if n.close_exec
              then without_answer (vfs_close sys n f)
              else copied_channel n f).1)
          e
        ∙ ap (λ x. (if x then without_answer (vfs_close sys n f) else copied_channel n f).1) c
        ∙ without_answer-node (vfs_close sys n f)

    inherit_channel-Inherited :
        (n : VNode) (f : Files) → Inherited sys n (inherit_channel sys into n f).1
    inherit_channel-Inherited n f = (
      (λ e. free_channel n f e),
      (λ e c h k. closed_channel n f e c ∙ vfs_close-clears sys n f h (k f)),
      (λ e c.
          let k = copied_channel-Keeps n f in
          subst
            (λ m.
              (m.close_exec ≡ false)
              × (m.flags ≡ n.flags)
              × (m.file_id ≡ n.file_id)
              × (m.file_type ≡ n.file_type)
              × ((m.access ≡ n.access) ⊎ (n.fs_type ≡ fs_mailslot)))
            (sym (open_channel n f e c)) (k.0 ∙ c, k.1, k.2, k.3, k.4)),
    )

    inherit_channels-Inherited :
        (fd : ℕ) (ns : List VNode) (f : Files) (n : VNode)
        → get_elem? ns fd ≡ some n
        → (m : VNode) × (get_elem? (inherit_channels sys into ns f).1 fd ≡ some m)
          × Inherited sys n m
    unfolding inherit_channels
    inherit_channels-Inherited fd [] f n p = cc
    inherit_channels-Inherited zero (k ∷ ns) f n p =
        let k' : k ≡ n = cc in
        let m = (inherit_channel sys into k f).1 in
        (m, refl, subst (λ x. Inherited sys x m) k' (inherit_channel-Inherited k f))
    inherit_channels-Inherited (suc fd) (k ∷ ns) f n p =
        inherit_channels-Inherited fd ns (inherit_channel sys into k f).0 n p

  child_of-node :
      (parent : Process) (thread : ThreadStart) (t : Process)
      → (child_of parent thread t).node ≡ t.node
  unfolding child_of inherit_trace
  child_of-node parent thread t =
      if_lem (λ (x : Process). x.node ≡ t.node) (has parent.trace_points 0x40000000) refl refl

  -- A fork for which ProcCreateTask finds a place c in the table succeeds. Each descriptor of the
  -- child carries its own number; where the parent has none open it is as it was in that place, and
  -- where the parent has one open, whether or not Windows could copy its handle, it has the parent's
  -- close-on-exec flag, flags and type of file, and the parent's access unless it is a mailslot. The
  -- child has the parent's group, session, terminal, mask and actions, the parent's number as that
  -- of its parent, and no time used.
  pub proc_dup-Copied :
      (w : Caller) (p : ℕ) (thread : ThreadStart) (blank : Process) (f : Files)
      (table table' : List Process) (c fd : ℕ) (n r : VNode)
      → proc_create_task w (get_or table p blank).group_id table ≡ (table', some c)
      → c < length table'
      → get_elem? (get_or table' p blank).node fd ≡ some n
      → get_elem? (get_or table' c blank).node fd ≡ some r
      → (f' : Files) × (child : Process) × (m : VNode) × (proc_dup sys w p thread blank f table
          ≡ some (f', set table' c child, c))
        × (get_elem? (set table' c child) c ≡ some child)
        × (get_elem? child.node fd ≡ some m)
        × Copied fd n r m
        × (child.group_id ≡ (get_or table' p blank).group_id)
        × (child.session_id ≡ (get_or table' p blank).session_id)
        × (child.ctty ≡ (get_or table' p blank).ctty)
        × (child.proc_mask ≡ (get_or table' p blank).proc_mask)
        × (child.action ≡ (get_or table' p blank).action)
        × (child.parent_id ≡ (get_or table' p blank).task_id)
        × (child.kernel_time ≡ 0)
        × (child.user_time ≡ 0)
  unfolding proc_dup dup_into child_of
  proc_dup-Copied w p thread blank f table table' c fd n r found in_table opened place =
      let parent = get_or table' p blank in
      let slot = get_or table' c blank in
      let copies = dup_channels sys 0 parent.node (child_of parent thread slot).node f in
      let (m, e, k) =
        dup_channels-Copied 0 fd parent.node (child_of parent thread slot).node f n r opened
          (ap (λ l. get_elem? l fd) (child_of-node parent thread slot) ∙ place) in
      let here : 0 + fd ≡ fd = omega arith in
      (
        copies.0,
        record (child_of parent thread slot) { node = copies.1 },
        m,
        ap (dup_into sys p thread blank f) found,
        get_elem?-set_self table' c (record (child_of parent thread slot) { node = copies.1 })
            in_table,
        e,
        subst (λ j. Copied j n r m) here k,
        refl,
        refl,
        refl,
        refl,
        refl,
        refl,
        refl,
        refl,
      )

  -- An exec that creates the new process: each descriptor with the close-on-exec flag and a handle
  -- is closed, where Windows closes what it has, and nothing but its number is left of it; each
  -- other open descriptor keeps its number, flags and type, and its access unless it is a mailslot,
  -- and has no such flag; a free one stays as it is.
  pub proc_execve-Inherited :
      (into : Host) (x : ExecAnswers) (t : Process) (f : Files) (handle thread fd : ℕ) (n : VNode)
      → x.has_token ≡ true
      → x.has_control ≡ true
      → x.created ≡ some (handle, thread)
      → get_elem? t.node fd ≡ some n
      → (m : VNode) × (get_elem? (proc_execve sys into x t f).1.node fd ≡ some m)
        × Inherited sys n m
  unfolding proc_execve exec_created started_task
  proc_execve-Inherited into x t f handle thread fd n a b c p =
      let (m, e, k) = inherit_channels-Inherited into fd t.node f n p in
      (
        m,
        ap
              (λ b.
                get_elem?
                  (if not b
                    then (f, t, false)
                    else if not x.has_control
                    then (f, t, false)
                    else exec_created sys into x t f x.created).1.node
                  fd)
              a
            ∙ ap
                (λ b.
                  get_elem?
                    (if not b then (f, t, false) else exec_created sys into x t f x.created).1.node
                    fd)
                b
            ∙ ap (λ o. get_elem? (exec_created sys into x t f o).1.node fd) c
            ∙ e,
        k,
      )
