-- ===== src/Acl/Chmod.antt =====
-- The mode that a file reports after its mode was changed: proofs.
use minc.Prelude.{
  ℕ, ◌%◌, ◌<◌, ◌≡◌, refl, sym, ap, ◌∙◌, inl, inr, Bool, true, false, Option, none, some, not, ◌&&◌,
  if_lem, List, [], ◌∷◌, ◌==◌, if◌then◌else◌, arith,
}
use minc.Descriptor.Flags.{has}
use minc.Stat.{WinMode, permissions, permissions_win, mode_win, mode_posix}
use minc.Acl.{
  Ace, Attributes, acl_user, acl_group, acl_other, acl_type_default, inherit_only, class_met,
  acl_owner_type, with_mask, chmod_entry, chmod_entries, stat_entry, stat_entries, special_if,
  Security, Calls, Known, Control, Sid, vfs_acl_stat, stat_owned, stat_dacl, vfs_acl_chmod,
  vfs_acl_init, put_dacl, chmod_list, dacl_of, stat_list, chosen_sid, disk_fchmod,
}
use minc.Stat.Mode.{digit, mode_posix-rights, mode_digits}
use minc.Acl.Classes.{met_of, Effect, owner_effect}
use minc.Acl.Masks.{permissions-with_mask, class_of-with_mask}

-- The rights of every entry fit a DWORD.
abbrev pub AreMasks : List Ace → Type 0
AreMasks [] = Unit {0}
AreMasks (e ∷ es) = (e.mask < 4294967296) × AreMasks es

-- The classes that a list has.
unfoldable pub classes : List Ace → ℕ
classes [] = 0
classes (e ∷ es) = (acl_owner_type e (classes es)).1

chmod_entries-classes : (mode : WinMode) (es : List Ace) → (chmod_entries mode es 0).1 ≡ classes es
unfolding chmod_entries classes
chmod_entries-classes mode [] = refl
chmod_entries-classes mode (e ∷ es) =
    ap (λ k. (acl_owner_type e k).1) (chmod_entries-classes mode es)

all_met : (u g o : Bool) → met_of u g o ≡ 0x2A → (u ≡ true) × (g ≡ true) × (o ≡ true)
all_met true true true h = (refl, refl, refl)
all_met true true false h = absurd (omega arith)
all_met true false true h = absurd (omega arith)
all_met true false false h = absurd (omega arith)
all_met false true true h = absurd (omega arith)
all_met false true false h = absurd (omega arith)
all_met false false true h = absurd (omega arith)
all_met false false false h = absurd (omega arith)

special-rights :
    (b : Bool) (bit : ℕ) (v : Attributes)
    → mode_posix (special_if b bit v).mode % 512 ≡ mode_posix v.mode % 512
unfolding special_if
special-rights true bit v =
    mode_posix-rights (special_if true bit v).mode ∙ sym (mode_posix-rights v.mode)
special-rights false bit v = refl

module _ (m : ℕ) where
  same_type :
      (e : Ace) (k : ℕ) (r w x : Bool)
      → e.mask < 4294967296
      → acl_owner_type (with_mask e (permissions_win r w x)) k ≡ acl_owner_type e k
  unfolding acl_owner_type with_mask
  same_type e k r w x h =
      ap
        (λ c.
          if not (e.ace_type == 0)
          then (0, k)
          else if has e.ace_flags inherit_only
          then (acl_type_default, k)
          else class_met c k)
        (class_of-with_mask e h r w x k)

  -- The loop of a later stat sees the classes that chmod saw.
  chmod_entry-type :
      (e : Ace) (t k : ℕ)
      → e.mask < 4294967296
      → acl_owner_type (chmod_entry (mode_win m) t e) k ≡ acl_owner_type e k
  unfolding chmod_entry mode_win
  chmod_entry-type e t k h =
      if_lem (λ f. acl_owner_type f k ≡ acl_owner_type e k) (t == acl_user)
        (same_type e k (has m 0x100) (has m 0x80) (has m 0x40) h)
        (if_lem (λ f. acl_owner_type f k ≡ acl_owner_type e k) (t == acl_group)
          (same_type e k (has m 0x20) (has m 0x10) (has m 0x08) h)
          (if_lem (λ f. acl_owner_type f k ≡ acl_owner_type e k) (t == acl_other)
            (same_type e k (has m 0x04) (has m 0x02) (has m 0x01) h) refl))

  -- The permissions that the classes met so far report.
  abbrev Told : Bool → Bool → Bool → Attributes → Type 0
  Told u g o v =
      (u ≡ true → permissions v.mode.user ≡ digit (has m 0x100) (has m 0x80) (has m 0x40))
      × (g ≡ true → permissions v.mode.group ≡ digit (has m 0x20) (has m 0x10) (has m 0x08))
      × (o ≡ true → permissions v.mode.other ≡ digit (has m 0x04) (has m 0x02) (has m 0x01))

  step-Told :
      (u g o : Bool) (e : Ace) (v : Attributes) (r : ℕ × ℕ)
      → e.mask < 4294967296
      → Effect u g o r
      → Told u g o v
      → (u' : Bool) × (g' : Bool) × (o' : Bool) × (r.1 ≡ met_of u' g' o')
        × Told u' g' o' (stat_entry r.0 (chmod_entry (mode_win m) r.0 e) v)
  unfolding stat_entry chmod_entry mode_win
  step-Told u g o e v r h (inl p) k = rw p (
    true,
    g,
    o,
    refl,
    ((λ q. permissions-with_mask e h (has m 0x100) (has m 0x80) (has m 0x40)), k.1, k.2),
  )
  step-Told u g o e v r h (inr (inl p)) k = rw p (
    u,
    true,
    o,
    refl,
    (k.0, (λ q. permissions-with_mask e h (has m 0x20) (has m 0x10) (has m 0x08)), k.2),
  )
  step-Told u g o e v r h (inr (inr (inl p))) k = rw p (
    u,
    g,
    true,
    refl,
    (k.0, k.1, (λ q. permissions-with_mask e h (has m 0x04) (has m 0x02) (has m 0x01))),
  )
  step-Told u g o e v r h (inr (inr (inr (inl p)))) k = rw p (u, g, o, refl, (k.0, k.1, k.2))
  step-Told u g o e v r h (inr (inr (inr (inr (inl p))))) k = rw p (u, g, o, refl, (k.0, k.1, k.2))
  step-Told u g o e v r h (inr (inr (inr (inr (inr p))))) k = rw p (u, g, o, refl, (k.0, k.1, k.2))

  step_both :
      (u g o : Bool) (e : Ace) (v : Attributes) (a b : ℕ)
      → e.mask < 4294967296
      → a ≡ met_of u g o
      → b ≡ met_of u g o
      → Told u g o v
      → (u' : Bool) × (g' : Bool) × (o' : Bool) × ((acl_owner_type e a).1 ≡ met_of u' g' o')
        × ((acl_owner_type (chmod_entry (mode_win m) (acl_owner_type e a).0 e) b).1
            ≡ met_of u' g' o')
        × Told u' g' o' (
            stat_entry
              (acl_owner_type (chmod_entry (mode_win m) (acl_owner_type e a).0 e) b).0
              (chmod_entry (mode_win m) (acl_owner_type e a).0 e)
              v)
  step_both u g o e v a b h p q k =
      let r = acl_owner_type e (met_of u g o) in
      let (u', g', o', x, y) = step-Told u g o e v r h (owner_effect e u g o) k in
      rw (p, q, chmod_entry-type e r.0 (met_of u g o) h) (u', g', o', x, x, y)

  -- What a stat after the change reports, with the classes that the list has.
  entries-Told :
      (es : List Ace) (v : Attributes)
      → AreMasks es
      → (u : Bool) × (g : Bool) × (o : Bool) × ((chmod_entries (mode_win m) es 0).1 ≡ met_of u g o)
        × ((stat_entries (chmod_entries (mode_win m) es 0).0 0 v).1 ≡ met_of u g o)
        × Told u g o (stat_entries (chmod_entries (mode_win m) es 0).0 0 v).0
  unfolding chmod_entries stat_entries
  entries-Told [] v h = (false, false, false, refl, refl, ((λ q. cc), (λ q. cc), (λ q. cc)))
  entries-Told (e ∷ es) v h =
      let (u, g, o, a, b, k) = entries-Told es v h.1 in
      step_both u g o e (stat_entries (chmod_entries (mode_win m) es 0).0 0 v).0
        (chmod_entries (mode_win m) es 0).1 (stat_entries (chmod_entries (mode_win m) es 0).0 0 v).1
        h.0 a b k

  rights_told :
      (es : List Ace) (v : Attributes)
      → AreMasks es
      → classes es ≡ 0x2A
      → mode_posix (stat_entries (chmod_entries (mode_win m) es 0).0 0 v).0.mode % 512 ≡ m % 512
  rights_told es v h c =
      let (u, g, o, a, b, k) = entries-Told es v h in
      let met = all_met u g o (sym a ∙ chmod_entries-classes (mode_win m) es ∙ c) in
      let w = (stat_entries (chmod_entries (mode_win m) es 0).0 0 v).0.mode in
      omega (arith, mode_posix-rights w, mode_digits m, k.0 met.0, k.1 met.1, k.2 met.2)

-- What a later stat reads of a file, through a descriptor that Windows gives in full.
abbrev pub Readable : Calls → Type 0
Readable calls =
    ((s : Security) → calls.gets_owner s ≡ true)
    × ((s : Security) → calls.gets_group s ≡ true)
    × ((s : Security) → calls.gets_dacl s ≡ true)

stat_changed :
    (calls : Calls) (known : Known) (sd : Security) (o g : Sid) (m : ℕ) (es : List Ace)
    (v : Attributes)
    → Readable calls
    → sd.owner ≡ some o
    → sd.owner_group ≡ some g
    → sd.dacl ≡ some (chmod_entries (mode_win m) es 0).0
    → AreMasks es
    → classes es ≡ 0x2A
    → (w : Attributes) × (vfs_acl_stat calls known sd v ≡ some w)
      × (mode_posix w.mode % 512 ≡ m % 512)
unfolding vfs_acl_stat stat_owned stat_dacl stat_list
stat_changed calls known sd o g m es v r a b c h k =
    let named = record v { user_sid = o; group_sid = g } in
    let listed = (stat_entries (chmod_entries (mode_win m) es 0).0 0 named).0 in
    let admins = calls.equal_sid o known.sid_admins in
    let system = calls.equal_sid g known.sid_system in
    let read =
      ap
        (λ x.
          if x && calls.gets_group sd
          then stat_owned calls known sd v sd.owner sd.owner_group
          else none)
        (r.0 sd)
      ∙ ap (λ x. if x then stat_owned calls known sd v sd.owner sd.owner_group else none) (r.1 sd)
      ∙ ap (λ x. stat_owned calls known sd v x sd.owner_group) a
      ∙ ap (stat_owned calls known sd v (some o)) b in
    let entries : stat_dacl calls sd named ≡ listed =
      ap (λ x. if x then stat_list sd.dacl named else named) (r.2 sd)
      ∙ ap (λ l. stat_list l named) c in
    (
      special_if system 0x02 (special_if admins 0x04 listed),
      read ∙ ap (λ l. some (special_if system 0x02 (special_if admins 0x04 l))) entries,
      special-rights system 0x02 (special_if admins 0x04 listed)
          ∙ special-rights admins 0x04 listed
          ∙ rights_told m es named h k,
    )

-- Windows carries the changes out.
abbrev pub Obeys : Calls → (Security → Bool) → Type 0
Obeys calls sets =
    (calls.initializes ≡ true)
    × ((s : Option Sid) → calls.sets_owner s ≡ true)
    × ((s : Option Sid) → calls.sets_group s ≡ true)
    × ((l : Option (List Ace)) → calls.sets_dacl l ≡ true)
    × ((s : Security) → sets s ≡ true)

-- The owner that init chooses is there.
chosen_some :
    (special remote : Bool) (named own : Sid) (found : Option Sid) (f : Sid)
    → found ≡ some f
    → (s : Sid) × (chosen_sid special remote named own found ≡ some s)
unfolding chosen_sid
chosen_some true remote named own found f e = (named, refl)
chosen_some false false named own found f e = (own, refl)
chosen_some false true named own found f e = (f, e)

module _ (calls : Calls) (sets : Security → Bool) (r : Readable calls) (w : Obeys calls sets) where
  init_named :
      (known : Known) (control : Control) (source : Security) (remote : Bool) (mode : ℕ)
      (fo fg : Sid) (result : Security)
      → source.owner ≡ some fo
      → source.owner_group ≡ some fg
      → (o : Sid) × (g : Sid) × (vfs_acl_init calls known control source remote mode result
          ≡ (record { owner = some o; owner_group = some g; dacl = none }, true))
  unfolding vfs_acl_init
  init_named known control source remote mode fo fg result a b =
      let o =
        chosen_some (has mode 0x04) remote known.sid_admins control.control_owner
          (if calls.gets_owner source then source.owner else none) fo
          (ap (λ x. if x then source.owner else none) (r.0 source) ∙ a) in
      let g =
        chosen_some (has mode 0x02) remote known.sid_system control.control_group
          (if calls.gets_group source then source.owner_group else none) fg
          (ap (λ x. if x then source.owner_group else none) (r.1 source) ∙ b) in
      (o.0, g.0, rw (w.0, o.1, g.1, w.1 (some o.0), w.2 (some g.0)))

  chmod_listed :
      (source : Security) (es : List Ace) (mode : WinMode) (sd : Security)
      → source.dacl ≡ some es
      → vfs_acl_chmod calls source mode sd
        ≡ (record sd { dacl = some (chmod_entries mode es 0).0 }, true)
  unfolding vfs_acl_chmod put_dacl dacl_of chmod_list
  chmod_listed source es mode sd c =
      ap (λ x. put_dacl calls (chmod_list mode (if x then source.dacl else none)) sd) (r.2 source)
      ∙ ap (λ l. put_dacl calls (chmod_list mode l) sd) c
      ∙ ap
          (λ x.
            if x
            then (record sd { dacl = some (chmod_entries mode es 0).0 }, true)
            else (sd, false))
          (w.3 (some (chmod_entries mode es 0).0))

  -- Where Windows gives the descriptor of a file in full and takes changes of it, and the file has
  -- an owner, a group and a list of entries, that are DWORDs and in which AclOwnerType finds a user,
  -- a group and others: chmod succeeds, and a stat afterwards reports the rights of user, group and
  -- others that were set, in the mode of POSIX.
  pub disk_fchmod-vfs_acl_stat :
      (known : Known) (control : Control) (remote : Bool) (source : Security) (fo fg : Sid) (m : ℕ)
      (es : List Ace) (v : Attributes)
      → source.owner ≡ some fo
      → source.owner_group ≡ some fg
      → source.dacl ≡ some es
      → AreMasks es
      → classes es ≡ 0x2A
      → (sd : Security) × (a : Attributes) × (disk_fchmod calls known sets control remote
            (mode_win m)
            (some source)
          ≡ (some sd, true))
        × (vfs_acl_stat calls known sd v ≡ some a)
        × (mode_posix a.mode % 512 ≡ m % 512)
  unfolding disk_fchmod
  disk_fchmod-vfs_acl_stat known control remote source fo fg m es v a b c h k =
      let blank : Security = record { owner = none; owner_group = none; dacl = none } in
      let (o, g, init) =
        init_named known control source remote (mode_win m).special fo fg blank a b in
      let replaced : Bool → Security × Bool → Option Security × Bool =
        λ ready q. if ready && q.1 && sets q.0 then (some q.0, true) else (some source, false) in
      let named : Security = record { owner = some o; owner_group = some g; dacl = none } in
      let sd : Security = record {
        owner = some o;
        owner_group = some g;
        dacl = some (chmod_entries (mode_win m) es 0).0;
      } in
      let (x, told, rights) = stat_changed calls known sd o g m es v r refl refl refl h k in
      let done : disk_fchmod calls known sets control remote (mode_win m) (some source)
          ≡ (some sd, true) =
        ap (λ p. replaced p.1 (vfs_acl_chmod calls source (mode_win m) p.0)) init
        ∙ ap (replaced true) (chmod_listed source es (mode_win m) named c)
        ∙ ap (λ x. if x then (some sd, true) else (some source, false)) (w.4 sd) in
      (sd, x, done, told, rights)
