-- ===== src/Rid/RoundTrip.antt =====
-- An id on its way to Windows and back: proofs.
use minc.Prelude.{
  ℕ, suc, ◌+◌, ◌-◌, ◌*◌, ◌/◌, ◌%◌, ◌<◌, ◌≡◌, ◌≢◌, refl, sym, ap, ◌∙◌, inl, inr, Bool, true, false,
  List, [], ◌∷◌, length, length-set, get_or, set, ◌==◌, ==_iff, if◌then◌else◌, Bool-cases, arith,
}
use minc.Prelude.Int.{pos}
use minc.Acl.{Sid}
use minc.Rid.{
  machine_domain, builtin_domain, service_domain, int_of_dword, composed, rid_posix, rid_of,
  rid_win,
}

composed-pos :
    (auth sub rid : ℕ)
    → auth * 100000000 + (sub * 1000000 + rid) < 2147483648
    → composed auth sub rid ≡ pos (auth * 100000000 + (sub * 1000000 + rid))
unfolding composed int_of_dword
composed-pos auth sub rid h = ground arith

local_kept :
    (same_prefix : Sid → Bool) (n : ℕ)
    → n / 100000000 ≡ 5
    → n / 1000000 % 100 ≡ 0
    → n % 1000000 ≢ machine_domain
    → rid_posix same_prefix
        (record { authority = n / 100000000; sub_authority = n % 100000000 ∷ [] })
      ≡ pos n
unfolding rid_posix composed int_of_dword
local_kept same_prefix n a z d = ground arith

builtin_kept :
    (same_prefix : Sid → Bool) (n : ℕ)
    → n / 100000000 ≡ 5
    → n / 1000000 % 100 ≡ builtin_domain
    → rid_posix same_prefix
        (record { authority = 5; sub_authority = builtin_domain ∷ n % 1000000 ∷ [] })
      ≡ pos n
unfolding rid_posix composed int_of_dword
builtin_kept same_prefix n a z = ground arith

other_kept :
    (same_prefix : Sid → Bool) (n s : ℕ)
    → n / 100000000 ≡ 5
    → n / 1000000 % 100 ≡ s
    → s ≢ machine_domain
    → s ≢ service_domain
    → rid_posix same_prefix
        (record { authority = n / 100000000; sub_authority = s ∷ n % 1000000 ∷ [] })
      ≡ pos n
unfolding rid_posix composed int_of_dword
other_kept same_prefix n s a z d e = ground arith

-- The last entry of a list that is not empty.
last_set :
    (x : ℕ) (xs : List ℕ) (r : ℕ)
    → get_or (set (x ∷ xs) (length xs) r) (length (set (x ∷ xs) (length xs) r) - 1) 0 ≡ r
last_set x [] r = refl
last_set x (y ∷ xs) r =
    let zs = set (y ∷ xs) (length xs) r in
    let e : suc (length zs) - 1 ≡ suc (length zs - 1) =
      omega (arith, length-set (y ∷ xs) (length xs) r) in
    ap (λ k. get_or (x ∷ zs) k 0) e ∙ last_set y xs r

-- An identifier of the machine's domain, with any last entry.
abbrev pub account : ℕ → ℕ → List ℕ → ℕ → Sid
account auth x rest r = record {
  authority = auth;
  sub_authority = machine_domain ∷ set (x ∷ rest) (length rest) r;
}

account_kept :
    (same_prefix : Sid → Bool) (x : ℕ) (rest : List ℕ) (n : ℕ)
    → same_prefix (account 5 x rest (n % 1000000)) ≡ true
    → n / 100000000 ≡ 5
    → n / 1000000 % 100 ≡ machine_domain
    → rid_posix same_prefix (account 5 x rest (n % 1000000)) ≡ pos n
unfolding rid_posix
account_kept same_prefix x rest n p a d =
    let zs = set (x ∷ rest) (length rest) (n % 1000000) in
    let last : get_or (machine_domain ∷ zs) (suc (length zs) - 1) 0 ≡ n % 1000000 =
      let e : suc (length zs) - 1 ≡ suc (length zs - 1) =
        omega (arith, length-set (x ∷ rest) (length rest) (n % 1000000)) in
      ap (λ k. get_or (machine_domain ∷ zs) k 0) e ∙ last_set x rest (n % 1000000) in
    let counted : (suc (length zs) == 0) ≡ false = ground arith in
    let rid = get_or (machine_domain ∷ zs) (suc (length zs) - 1) 0 in
    ap
      (λ b.
        if b
        then composed 5 machine_domain 513
        else composed (if same_prefix (account 5 x rest (n % 1000000)) then 5 else 6) machine_domain
            rid)
      counted
    ∙ ap
        (λ b.
          composed (if b then 5 else 6) machine_domain
            (get_or (machine_domain ∷ zs) (suc (length zs) - 1) 0))
        p
    ∙ ap (composed 5 machine_domain) last
    ∙ composed-pos 5 machine_domain (n % 1000000) (omega arith)
    ∙ ap pos (omega (arith, a, d))

rid_of-account :
    (x : ℕ) (rest : List ℕ) (n : ℕ)
    → n / 1000000 % 100 ≡ machine_domain
    → rid_of (record { authority = 5; sub_authority = machine_domain ∷ x ∷ rest }) n
      ≡ account 5 x rest (n % 1000000)
unfolding rid_of
rid_of-account x rest n d =
    let l = machine_domain ∷ x ∷ rest in
    let made : ℕ → Sid = λ k. record { authority = 5; sub_authority = set l k (n % 1000000) } in
    let e : suc (suc (length rest)) - 1 ≡ suc (length rest) = omega arith in rw d (ap made e)

rid_of_kept :
    (same_prefix : Sid → Bool) (x : ℕ) (rest : List ℕ) (n : ℕ)
    → same_prefix (account 5 x rest (n % 1000000)) ≡ true
    → n / 100000000 ≡ 5
    → n / 1000000 % 100 ≢ service_domain
    → n % 100000000 ≢ machine_domain
    → rid_posix same_prefix
        (rid_of (record { authority = 5; sub_authority = machine_domain ∷ x ∷ rest }) n)
      ≡ pos n
unfolding rid_of
rid_of_kept same_prefix x rest n alike a s m = elim (Bool-cases (n / 1000000 % 100 == 0)) [
  | inl z ↦
      let z' = (==_iff (n / 1000000 % 100) 0).0 z in
      rw z (local_kept same_prefix n a z' (λ e. m (omega (arith, e, z'))))
  | inr y ↦ elim (Bool-cases (n / 1000000 % 100 == machine_domain)) [
    | inl d ↦
        let d' = (==_iff (n / 1000000 % 100) machine_domain).0 d in
        ap (rid_posix same_prefix) (rid_of-account x rest n d')
        ∙ account_kept same_prefix x rest n alike a d'
    | inr k ↦ elim (Bool-cases (n / 1000000 % 100 == builtin_domain)) [
      | inl b ↦
          rw (y, k, b)
            (builtin_kept same_prefix n a ((==_iff (n / 1000000 % 100) builtin_domain).0 b))
      | inr o ↦
          rw (y, k, o)
            (other_kept same_prefix n (n / 1000000 % 100) a refl
              (λ e. cc (sym k ∙ (==_iff (n / 1000000 % 100) machine_domain).1 e)) s)
    ]
  ]
]

-- An id of the authority 5, by which Windows NT names its users and groups, is made an identifier of
-- Windows and that identifier made an id: it is the same id, if its domain is not that of the
-- services, 80, and it is not the id 21 of no domain. For a machine whose identifier has the
-- authority 5 and the domain 21, where EqualPrefixSid finds the accounts of the machine in it.
pub rid_posix-rid_win :
    (same_prefix : Sid → Bool) (sid_none : Sid) (x : ℕ) (rest : List ℕ) (n : ℕ)
    → ((r : ℕ) → same_prefix (account 5 x rest r) ≡ true)
    → n / 100000000 ≡ 5
    → n / 1000000 % 100 ≢ service_domain
    → n % 100000000 ≢ machine_domain
    → rid_posix same_prefix (
        rid_win
          (record { authority = 5; sub_authority = machine_domain ∷ x ∷ rest })
          sid_none
          (pos n))
      ≡ pos n
unfolding rid_win
rid_posix-rid_win same_prefix sid_none x rest n alike a s m =
    let machine : Sid = record { authority = 5; sub_authority = machine_domain ∷ x ∷ rest } in
    let known : rid_win machine sid_none (pos n) ≡ rid_of machine n = ground arith in
    ap (rid_posix same_prefix) known ∙ rid_of_kept same_prefix x rest n (alike (n % 1000000)) a s m
