-- ===== src/Descriptor/Lock/Report.antt =====
-- What F_GETLK reports of a lock.
use native.Mathlib.Nat.{mul-div_cancel_left}
use minc.Prelude.{ℕ, ◌+◌, ◌*◌, ◌%◌, ◌<◌, ◌≡◌, refl, ap, true, false, ◌==◌, arith}
use minc.Descriptor.{VNode, Host, Files}
use minc.Descriptor.Lock.{
  Flock, file_f_setlk, lock_region_of, take_up, give_back, fcntl_f_getlk, lockfile_unlock,
}

-- A region that does not pass the end of a DWORDLONG, not even as the product that a node keeps.
pub record Region (offset size : ℕ) : Type 0 where
  pub some_bytes : 0 < size
  pub size_small : size < 18446744073709551616
  pub product_small : size * offset < 18446744073709551616

taken :
    (n : VNode) (offset size : ℕ) (lock : Flock)
    → Region offset size
    → n.lock_region ≡ 0
    → n.lock_size ≡ 0
    → fcntl_f_getlk (take_up offset size n) lock ≡ record lock { start = offset; len = size }
unfolding fcntl_f_getlk take_up
taken n offset size lock r e h =
    let p : (n.lock_size + size) % 18446744073709551616 ≡ size = omega (arith, h, r.size_small) in
    let q : (n.lock_region + size * offset % 18446744073709551616) % 18446744073709551616
        ≡ size * offset =
      omega (arith, e, r.product_small) in
    let z : (size == 0) ≡ false = ground (arith, r.some_bytes) in
    rw p rw q rw z
      (ap (λ k. record lock { start = k; len = size }) (mul-div_cancel_left offset r.some_bytes))

returned_back :
    (n : VNode) (offset size : ℕ)
    → Region offset size
    → n.lock_region ≡ 0
    → n.lock_size ≡ 0
    → (give_back offset size (take_up offset size n)).lock_size ≡ 0
unfolding take_up give_back
returned_back n offset size r e h = omega (arith, h, r.size_small, r.some_bytes)

none_held :
    (m : VNode) (lock : Flock)
    → (m.lock_size == 0) ≡ true
    → fcntl_f_getlk m lock ≡ record lock { type = 2 }
unfolding fcntl_f_getlk
none_held m lock h = rw h refl

-- A lock, of some bytes, on a region whose size and whose product of size and offset fit a
-- DWORDLONG, of a file where no lock is held, which Windows reports as not locked and then
-- grants, is reported by F_GETLK with that offset and size; and once that region is unlocked,
-- where Windows agrees, F_GETLK reports that there is no lock.
pub fcntl_f_getlk-file_f_setlk :
    (sys later : Host) (n : VNode) (f g : Files) (flags offset size : ℕ) (lock : Flock)
    → Region offset size
    → n.lock_region ≡ 0
    → n.lock_size ≡ 0
    → sys.unlocks n.handle offset size ≡ false
    → (sys.unlock_error == 158) ≡ true
    → sys.locks n.handle flags offset size ≡ true
    → (flags == lockfile_unlock) ≡ false
    → later.unlocks n.handle offset size ≡ true
    → let held = (file_f_setlk sys flags offset size n f).1 in
      (fcntl_f_getlk held lock ≡ record lock { start = offset; len = size })
      × (fcntl_f_getlk (file_f_setlk later lockfile_unlock offset size held g).1 lock
          ≡ record lock { type = 2 })
unfolding file_f_setlk lock_region_of take_up
fcntl_f_getlk-file_f_setlk sys later n f g flags offset size lock r e h free missing granted locking
      agreed =
    rw free rw missing rw locking rw granted (
      taken n offset size lock r e h,
      rw agreed (
          none_held (give_back offset size (take_up offset size n)) lock
            (ground (arith, returned_back n offset size r e h))),
    )
