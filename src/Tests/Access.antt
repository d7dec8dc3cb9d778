-- ===== src/Tests/Access.antt =====
-- A file whose list has an entry for its user, its group and the others, and a change of its mode.
use minc.Prelude.{ℕ, ◌%◌, ◌≡◌, refl, true, false, some, List, [], ◌∷◌, arith}
use minc.Stat.{mode_win, mode_posix}
use minc.Stat.Mode.{mode_posix-mode_win}
use minc.Acl.{
  Sid, Ace, Security, Attributes, Calls, Known, Control, acl_owner_type, class_met, class_of,
  vfs_acl_stat, disk_fchmod,
}
use minc.Prelude.Int.{pos}
use minc.Rid.{rid_posix, rid_win}
use minc.Rid.RoundTrip.{rid_posix-rid_win}
use minc.Acl.Chmod.{classes, disk_fchmod-vfs_acl_stat}

abbrev sid : ℕ → Sid
sid n = record { authority = 5; sub_authority = n ∷ [] }

abbrev entry : ℕ → ℕ → Ace
entry mask n = record { ace_type = 0; ace_flags = 0; mask = mask; sid = sid n }

abbrev entries : List Ace
entries = entry 0x1200A9 11 ∷ entry 0x1301BF 18 ∷ entry 0x1F01FF 500 ∷ []

abbrev stored : Security
stored = record { owner = some (sid 500); owner_group = some (sid 513); dacl = some entries }

abbrev calls : Calls
calls = record {
  equal_sid = λ a b. false;
  equal_prefix_sid = λ a b. false;
  gets_owner = λ s. true;
  gets_group = λ s. true;
  gets_dacl = λ s. true;
  initializes = true;
  sets_owner = λ s. true;
  sets_group = λ s. true;
  sets_dacl = λ s. true;
}

abbrev known : Known
known = record {
  sid_admins = sid 544;
  sid_system = sid 18;
  sid_authenticated = sid 11;
  sid_machine = sid 21;
  sid_none = sid 513;
}

abbrev caller : Control
caller = record { control_owner = sid 500; control_group = sid 513 }

abbrev nothing : Attributes
nothing = record {
  mode = record { file_type = 1; user = 0; group = 0; other = 0; special = 0 };
  user_sid = sid 0;
  group_sid = sid 0;
}

disk_fchmod-vfs_acl_stat_example :
    (sd : Security) × (a : Attributes) × (disk_fchmod calls known
        (λ s. true)
        caller
        false
        (mode_win 33260)
        (some stored)
      ≡ (some sd, true))
    × (vfs_acl_stat calls known sd nothing ≡ some a)
    × (mode_posix a.mode % 512 ≡ 33260 % 512)
unfolding classes acl_owner_type class_met class_of
disk_fchmod-vfs_acl_stat_example =
    disk_fchmod-vfs_acl_stat calls (λ s. true) ((λ s. refl), (λ s. refl), (λ s. refl))
      (refl, (λ s. refl), (λ s. refl), (λ s. refl), (λ s. refl)) known caller false stored (sid 500)
      (sid 513) 33260 entries nothing refl refl refl (omega arith, (omega arith, (omega arith, tt)))
      refl

mode_posix-mode_win_example : mode_posix (mode_win 33261) ≡ 33261
mode_posix-mode_win_example = mode_posix-mode_win 33261 (omega arith)

-- The group Administrators.
rid_posix-rid_win_example :
    rid_posix
      (λ s. true)
      (rid_win
        (record { authority = 5; sub_authority = 21 ∷ 7 ∷ 500 ∷ [] })
        (sid 0)
        (pos 532000544))
    ≡ pos 532000544
rid_posix-rid_win_example =
    rid_posix-rid_win (λ s. true) (sid 0) 7 (500 ∷ []) 532000544 (λ r. refl) (omega arith)
      (omega arith) (omega arith)
