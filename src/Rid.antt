-- ===== src/Rid.antt =====
-- libposix/sys/stat.c: user and group ids as security identifiers, by rid_posix and rid_win, with the
-- identifiers of libposix/win/win.c.
pub mod RoundTrip
use minc.Prelude.{
  ℕ, zero, suc, ◌+◌, ◌-◌, ◌*◌, ◌/◌, ◌%◌, Bool, true, false, not, List, [], ◌∷◌, length, get_or, set,
  ltb, ◌==◌, if◌then◌else◌,
}
use minc.Prelude.Int.{ℤ, pos, negsuc}
use minc.Prelude.Words.{to_dword}
use minc.Acl.{Sid}

abbrev pub machine_domain : ℕ
machine_domain = 21

abbrev pub builtin_domain : ℕ
builtin_domain = 32

abbrev pub service_domain : ℕ
service_domain = 80

abbrev other_authority : ℕ
other_authority = 6

abbrev installer_rid : ℕ
installer_rid = 0x876402C0

abbrev sid_trusted_installer : Sid
sid_trusted_installer = record {
  authority = 5;
  sub_authority = 80 ∷ 0x38FB89B5 ∷ 0xCBC28419 ∷ 0x6D236C5C ∷ 0x6E770057 ∷ 0x876402C0 ∷ [];
}

-- A DWORD read as an int.
unfoldable pub int_of_dword : ℕ → ℤ
int_of_dword w = if ltb w 2147483648 then pos w else negsuc (4294967295 - w)

-- bAuth * 100000000 + ulSubAuth * 1000000 + ulRid
unfoldable pub composed : ℕ → ℕ → ℕ → ℤ
unfolding int_of_dword
composed auth sub rid = int_of_dword ((auth * 100000000 + (sub * 1000000 + rid)) % 4294967296)

-- same_prefix is what EqualPrefixSid says of the identifier and __SidMachine.
pub rid_posix : (Sid → Bool) → Sid → ℤ
unfolding composed
rid_posix same_prefix sid =
    let count = length sid.sub_authority in
    let sub = get_or sid.sub_authority 0 0 in
    let rid = get_or sid.sub_authority (count - 1) 0 in
    if count == 0
    then composed 5 machine_domain 513
    else if sub == machine_domain
    then composed (if same_prefix sid then sid.authority else other_authority) sub rid
    else if count == 1
    then composed sid.authority 0 rid
    else if sub == service_domain
    then composed 0 0 rid
    else composed sid.authority sub rid

-- An id that is not negative and has an authority.
unfoldable pub rid_of : Sid → ℕ → Sid
rid_of sid_machine n =
    let sub = n / 1000000 % 100 in
    if sub == 0
    then record { authority = n / 100000000; sub_authority = n % 100000000 ∷ [] }
    else if sub == machine_domain
    then record sid_machine {
      sub_authority =
          set sid_machine.sub_authority (length sid_machine.sub_authority - 1) (n % 1000000);
    }
    else if sub == builtin_domain
    then record { authority = 5; sub_authority = builtin_domain ∷ n % 1000000 ∷ [] }
    else record { authority = n / 100000000; sub_authority = sub ∷ n % 1000000 ∷ [] }

pub rid_win : Sid → Sid → ℤ → Sid
unfolding rid_of
rid_win sid_machine sid_none (negsuc n) =
    if to_dword (negsuc n) == installer_rid then sid_trusted_installer else sid_none
rid_win sid_machine sid_none (pos n) =
    if n == installer_rid
    then sid_trusted_installer
    else if n / 100000000 == 0
    then sid_none
    else rid_of sid_machine n
