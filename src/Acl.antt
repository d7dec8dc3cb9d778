-- ===== src/Acl.antt =====
-- libposix/vfs/vfs_acl.c: the mode of a file as the access control list of Windows. Each entry of
-- the list stands for the user, the group or the others by the rights that it grants. GetAce and
-- AddAce read and insert an entry of the list; the sizes of the memory are not modelled.
pub mod Classes
pub mod Masks
pub mod Chmod
use minc.Prelude.{
  ℕ, ◌+◌, ◌%◌, Bool, true, false, not, ◌&&◌, Option, none, some, List, [], ◌∷◌, ◌++◌, ◌==◌, bit_and,
  bit_or, if◌then◌else◌,
}
use minc.Descriptor.Flags.{has}
use minc.Stat.{WinMode, win_s_irwx, win_s_isuid, win_s_isgid}

-- SID8: the last byte of the authority, and as many subauthorities as the count says.
pub record Sid : Type 0 where
  pub authority : ℕ
  pub sub_authority : List ℕ

-- ACE_PEEK
pub record Ace : Type 0 where
  pub ace_type : ℕ
  pub ace_flags : ℕ
  pub mask : ℕ
  pub sid : Sid

-- A security descriptor: no list is one that is not present or null.
pub record Security : Type 0 where
  pub owner : Option Sid
  pub owner_group : Option Sid
  pub dacl : Option (List Ace)

abbrev pub acl_user : ℕ
acl_user = 0x02

abbrev pub acl_group : ℕ
acl_group = 0x08

abbrev pub acl_other : ℕ
acl_other = 0x20

abbrev pub acl_type_access : ℕ
acl_type_access = 0x8000

abbrev pub acl_type_default : ℕ
acl_type_default = 0x4000

abbrev pub write_dac : ℕ
write_dac = 0x40000

abbrev pub delete_right : ℕ
delete_right = 0x10000

abbrev pub read_control : ℕ
read_control = 0x20000

-- INHERIT_ONLY_ACE
abbrev pub inherit_only : ℕ
inherit_only = 0x08

-- INHERITED_ACE
abbrev inherited : ℕ
inherited = 0x10

-- The class that the rights of an entry give, among those that have been met.
unfoldable pub class_of : ℕ → ℕ → ℕ
class_of mask type_mask =
    if has mask write_dac
    then (if has type_mask acl_user then acl_group else acl_user)
    else if has mask delete_right
    then (if has type_mask acl_group then acl_other else acl_group)
    else if has mask read_control
    then (if has type_mask acl_other then acl_group else acl_other)
    else 0

-- The class, and the classes met with it.
unfoldable pub class_met : ℕ → ℕ → ℕ × ℕ
class_met class type_mask =
    if has type_mask class then (acl_type_access, type_mask) else (class, bit_or type_mask class)

-- The result, and the new *TypeMask.
unfoldable pub acl_owner_type : Ace → ℕ → ℕ × ℕ
acl_owner_type entry type_mask =
    if not (entry.ace_type == 0)
    then (0, type_mask)
    else if has entry.ace_flags inherit_only
    then (acl_type_default, type_mask)
    else class_met (class_of entry.mask type_mask) type_mask

-- Mask & ~WIN_S_IRWX
unfoldable pub without_irwx : ℕ → ℕ
without_irwx mask = bit_and mask 0xFFFFFFC8

unfoldable pub with_mask : Ace → ℕ → Ace
with_mask entry m = record entry { mask = (without_irwx entry.mask + m) % 4294967296 }

-- The body of the loop of vfs_acl_chmod.
pub chmod_entry : WinMode → ℕ → Ace → Ace
chmod_entry mode type entry =
    if type == acl_user
    then with_mask entry mode.user
    else if type == acl_group
    then with_mask entry mode.group
    else if type == acl_other
    then with_mask entry mode.other
    else entry

-- The loop runs from the last entry to the first, and changes the list in place.
pub chmod_entries : WinMode → List Ace → ℕ → List Ace × ℕ
chmod_entries mode [] type_mask = ([], type_mask)
chmod_entries mode (e ∷ es) type_mask =
    let (rest, met) = chmod_entries mode es type_mask in
    let (type, met') = acl_owner_type e met in (chmod_entry mode type e ∷ rest, met')

-- What a stat takes from the security descriptor.
pub record Attributes : Type 0 where
  pub mode : WinMode
  pub user_sid : Sid
  pub group_sid : Sid

-- The body of the loop of vfs_acl_stat.
pub stat_entry : ℕ → Ace → Attributes → Attributes
stat_entry type entry v =
    if type == acl_user
    then record v { mode = record (v.mode) { user = entry.mask }; user_sid = entry.sid }
    else if type == acl_group
    then record v { mode = record (v.mode) { group = entry.mask }; group_sid = entry.sid }
    else if type == acl_other
    then record v { mode = record (v.mode) { other = entry.mask } }
    else v

pub stat_entries : List Ace → ℕ → Attributes → Attributes × ℕ
stat_entries [] type_mask v = (v, type_mask)
stat_entries (e ∷ es) type_mask v =
    let (rest, met) = stat_entries es type_mask v in
    let (type, met') = acl_owner_type e met in (stat_entry type e rest, met')

-- What the calls of Windows answer, on security identifiers and descriptors.
pub record Calls : Type 0 where
  pub equal_sid : Sid → Sid → Bool
  pub equal_prefix_sid : Sid → Sid → Bool
  pub gets_owner : Security → Bool
  pub gets_group : Security → Bool
  pub gets_dacl : Security → Bool
  pub initializes : Bool
  pub sets_owner : Option Sid → Bool
  pub sets_group : Option Sid → Bool
  pub sets_dacl : Option (List Ace) → Bool

-- The identifiers that are globals of libposix.
pub record Known : Type 0 where
  pub sid_admins : Sid
  pub sid_system : Sid
  pub sid_authenticated : Sid
  pub sid_machine : Sid
  pub sid_none : Sid

-- The list that a descriptor has, as far as Windows gives it.
unfoldable pub dacl_of : Calls → Security → Option (List Ace)
dacl_of calls source = if calls.gets_dacl source then source.dacl else none

unfoldable pub put_dacl : Calls → Option (List Ace) → Security → Security × Bool
put_dacl calls acl result =
    if calls.sets_dacl acl then (record result { dacl = acl }, true) else (result, false)

unfoldable pub chmod_list : WinMode → Option (List Ace) → Option (List Ace)
chmod_list mode none = none
chmod_list mode (some es) = some (chmod_entries mode es 0).0

pub vfs_acl_chmod : Calls → Security → WinMode → Security → Security × Bool
vfs_acl_chmod calls source mode result =
    put_dacl calls (chmod_list mode (dacl_of calls source)) result

abbrev pub all_rights : WinMode → WinMode
all_rights m = record m { user = win_s_irwx; group = win_s_irwx; other = win_s_irwx }

-- A file system without access control (VFAT) allows everything.
unfoldable pub stat_list : Option (List Ace) → Attributes → Attributes
stat_list none v = record v { mode = all_rights v.mode }
stat_list (some es) v = (stat_entries es 0 v).0

pub stat_dacl : Calls → Security → Attributes → Attributes
stat_dacl calls source v = if calls.gets_dacl source then stat_list source.dacl v else v

unfoldable pub special_if : Bool → ℕ → Attributes → Attributes
special_if b bit v =
    if b then record v { mode = record (v.mode) { special = bit_or v.mode.special bit } } else v

pub stat_owned : Calls → Known → Security → Attributes → Option Sid → Option Sid → Option Attributes
stat_owned calls known source v (some owner) (some group) =
    let listed = stat_dacl calls source (record v { user_sid = owner; group_sid = group }) in
    let set_uid = special_if (calls.equal_sid owner known.sid_admins) win_s_isuid listed in
    some (special_if (calls.equal_sid group known.sid_system) win_s_isgid set_uid)
stat_owned calls known source v owner group = none

-- No result: the code reads a pointer that was never set.
pub vfs_acl_stat : Calls → Known → Security → Attributes → Option Attributes
vfs_acl_stat calls known source v =
    if calls.gets_owner source && calls.gets_group source
    then stat_owned calls known source v source.owner source.owner_group
    else none

-- WIN_ACL_CONTROL, but for its list and its source.
pub record Control : Type 0 where
  pub control_owner : Sid
  pub control_group : Sid

-- The owner or the group that a new descriptor gets; remote is a mount of Samba.
unfoldable pub chosen_sid : Bool → Bool → Sid → Sid → Option Sid → Option Sid
chosen_sid special remote named own found =
    if special then some named else if not remote then some own else found

pub vfs_acl_init : Calls → Known → Control → Security → Bool → ℕ → Security → Security × Bool
vfs_acl_init calls known control source remote mode result =
    let owner =
      chosen_sid (has mode win_s_isuid) remote known.sid_admins control.control_owner
        (if calls.gets_owner source then source.owner else none) in
    let group =
      chosen_sid (has mode win_s_isgid) remote known.sid_system control.control_group
        (if calls.gets_group source then source.owner_group else none) in
    if not calls.initializes
    then (result, false)
    else if not (calls.sets_owner owner)
    then (record result { owner = none; owner_group = none; dacl = none }, false)
    else if not (calls.sets_group group)
    then (record result { owner = owner; owner_group = none; dacl = none }, false)
    else (record result { owner = owner; owner_group = group; dacl = none }, true)

-- AclDupEntry
unfoldable pub acl_dup_entry : Ace → Sid → Ace
acl_dup_entry entry sid = record entry { sid = sid }

-- AceFlags & ~ALL_INHERIT_ACE, and Flags added.
abbrev inheriting : ℕ → Ace → Ace
inheriting flags entry = record entry { ace_flags = (bit_and entry.ace_flags 0xFC + flags) % 256 }

-- The body of the loop of vfs_acl_create: none where it continues with the next entry.
pub create_entry : Calls → Known → Control → WinMode → ℕ → ℕ → Ace → Option Ace
create_entry calls known control mode flags type entry =
    if type == acl_user
    then some (
        inheriting flags (
          with_mask
            (if calls.equal_prefix_sid entry.sid known.sid_machine
              then acl_dup_entry entry control.control_owner
              else entry)
            mode.user))
    else if type == acl_group
    then some (inheriting flags (with_mask entry mode.group))
    else if type == acl_other
    then some (inheriting flags (with_mask entry mode.other))
    else if type == acl_type_access
    then some (inheriting flags entry)
    else none

unfoldable pub put_first : Option Ace → List Ace → List Ace
put_first none es = es
put_first (some e) es = e ∷ es

-- Each entry kept goes in front of those kept before.
pub create_entries : Calls → Known → Control → WinMode → ℕ → List Ace → List Ace × ℕ
create_entries calls known control mode flags [] = ([], 0)
create_entries calls known control mode flags (e ∷ es) =
    let (rest, met) = create_entries calls known control mode flags es in
    let (type, met') = acl_owner_type e met in
    (put_first (create_entry calls known control mode flags type e) rest, met')

-- AclAddEntry, of an entry at the end.
unfoldable pub acl_add_entry : List Ace → ℕ → ℕ → Sid → List Ace
acl_add_entry acl flags access sid =
    acl
    ++ record { ace_type = 0; ace_flags = bit_or inherited flags; mask = access; sid = sid } ∷ []

-- READ_CONTROL | SYNCHRONIZE | FILE_READ_ATTRIBUTES | FILE_READ_EA
abbrev read_attributes : ℕ
read_attributes = 0x120088

-- The entry for the others where the list has none.
pub with_others : Known → WinMode → ℕ → List Ace × ℕ → List Ace
with_others known mode flags (acl, met) =
    if has met acl_other
    then acl
    else acl_add_entry acl flags (bit_or read_attributes mode.other) known.sid_authenticated

pub vfs_acl_create : Calls → Known → Control → Security → WinMode → ℕ → Security → Security × Bool
vfs_acl_create calls known control source mode flags result =
    let old = elim (dacl_of calls source) as (λ _. List Ace) [ none ↦ [] | some es ↦ es ] in
    put_dacl calls
      (some (with_others known mode flags (create_entries calls known control mode flags old)))
      result

unfoldable pub new_sid : Calls → Known → Sid → Ace → Ace
new_sid calls known sid entry =
    if calls.equal_sid sid known.sid_none then entry else record entry { sid = sid }

-- The body of the loop of vfs_acl_chown.
pub chown_entry : Calls → Known → Sid → Sid → ℕ → Ace → Ace
unfolding new_sid
chown_entry calls known user group type entry =
    if type == acl_user
    then new_sid calls known user entry
    else if type == acl_group
    then new_sid calls known group entry
    else entry

pub chown_entries : Calls → Known → Sid → Sid → List Ace → ℕ → List Ace × ℕ
chown_entries calls known user group [] type_mask = ([], type_mask)
chown_entries calls known user group (e ∷ es) type_mask =
    let (rest, met) = chown_entries calls known user group es type_mask in
    let (type, met') = acl_owner_type e met in
    (chown_entry calls known user group type e ∷ rest, met')

pub vfs_acl_chown : Calls → Known → Security → Sid → Sid → Security → Security × Bool
vfs_acl_chown calls known source user group result =
    let old = elim (dacl_of calls source) as (λ _. List Ace) [ none ↦ [] | some es ↦ es ] in
    put_dacl calls (some ((chown_entries calls known user group old 0).0)) result

-- disk_fchmod of libposix/vfs/disk/disk_stat.c. The descriptor of the file as win_acl_get_fd reads
-- it, none if it cannot, is replaced where SetUserObjectSecurity agrees.
pub disk_fchmod :
    Calls
    → Known
    → (Security → Bool)
    → Control
    → Bool
    → WinMode
    → Option Security
    → Option Security × Bool
disk_fchmod calls known sets control remote mode none = (none, false)
disk_fchmod calls known sets control remote mode (some source) =
    let blank : Security = record { owner = none; owner_group = none; dacl = none } in
    let (sd, ready) = vfs_acl_init calls known control source remote mode.special blank in
    let (sd', changed) = vfs_acl_chmod calls source mode sd in
    if ready && changed && sets sd' then (some sd', true) else (some source, false)
