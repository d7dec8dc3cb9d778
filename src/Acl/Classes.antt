-- ===== src/Acl/Classes.antt =====
-- The classes of user, group and others that the entries of a list stand for: proofs.
use minc.Prelude.{ℕ, ◌+◌, ◌≡◌, refl, ◌⊎◌, inl, inr, Bool, true, false, not, ◌==◌, if_lem}
use minc.Descriptor.Flags.{has}
use minc.Stat.{added}
use minc.Acl.{
  Ace, acl_user, acl_group, acl_other, acl_type_access, acl_type_default, inherit_only, write_dac,
  delete_right, read_control, class_of, class_met, acl_owner_type,
}

-- The classes met, as three answers.
abbrev pub met_of : Bool → Bool → Bool → ℕ
met_of u g o = added u acl_user + added g acl_group + added o acl_other

-- What one entry adds to the classes that have been met, with the type that it gets.
abbrev pub Effect : Bool → Bool → Bool → ℕ × ℕ → Type 0
Effect u g o r =
    (r ≡ (acl_user, met_of true g o))
    ⊎ ((r ≡ (acl_group, met_of u true o))
        ⊎ ((r ≡ (acl_other, met_of u g true))
            ⊎ ((r ≡ (acl_type_access, met_of u g o))
                ⊎ ((r ≡ (acl_type_default, met_of u g o)) ⊎ (r ≡ (0, met_of u g o))))))

user_effect : (u g o : Bool) → Effect u g o (class_met acl_user (met_of u g o))
unfolding class_met
user_effect false false false = inl refl
user_effect false false true = inl refl
user_effect false true false = inl refl
user_effect false true true = inl refl
user_effect true false false = inr (inr (inr (inl refl)))
user_effect true false true = inr (inr (inr (inl refl)))
user_effect true true false = inr (inr (inr (inl refl)))
user_effect true true true = inr (inr (inr (inl refl)))

group_effect : (u g o : Bool) → Effect u g o (class_met acl_group (met_of u g o))
unfolding class_met
group_effect false false false = inr (inl refl)
group_effect false false true = inr (inl refl)
group_effect false true false = inr (inr (inr (inl refl)))
group_effect false true true = inr (inr (inr (inl refl)))
group_effect true false false = inr (inl refl)
group_effect true false true = inr (inl refl)
group_effect true true false = inr (inr (inr (inl refl)))
group_effect true true true = inr (inr (inr (inl refl)))

other_effect : (u g o : Bool) → Effect u g o (class_met acl_other (met_of u g o))
unfolding class_met
other_effect false false false = inr (inr (inl refl))
other_effect false false true = inr (inr (inr (inl refl)))
other_effect false true false = inr (inr (inl refl))
other_effect false true true = inr (inr (inr (inl refl)))
other_effect true false false = inr (inr (inl refl))
other_effect true false true = inr (inr (inr (inl refl)))
other_effect true true false = inr (inr (inl refl))
other_effect true true true = inr (inr (inr (inl refl)))

no_effect : (u g o : Bool) → Effect u g o (class_met 0 (met_of u g o))
unfolding class_met
no_effect false false false = inr (inr (inr (inr (inr refl))))
no_effect false false true = inr (inr (inr (inr (inr refl))))
no_effect false true false = inr (inr (inr (inr (inr refl))))
no_effect false true true = inr (inr (inr (inr (inr refl))))
no_effect true false false = inr (inr (inr (inr (inr refl))))
no_effect true false true = inr (inr (inr (inr (inr refl))))
no_effect true true false = inr (inr (inr (inr (inr refl))))
no_effect true true true = inr (inr (inr (inr (inr refl))))

class_effect :
    (mask : ℕ) (u g o : Bool)
    → Effect u g o (class_met (class_of mask (met_of u g o)) (met_of u g o))
unfolding class_of
class_effect mask u g o =
    let P : ℕ → Type 0 = λ c. Effect u g o (class_met c (met_of u g o)) in
    if_lem P (has mask write_dac)
      (if_lem P (has (met_of u g o) acl_user) (group_effect u g o) (user_effect u g o))
      (if_lem P (has mask delete_right)
        (if_lem P (has (met_of u g o) acl_group) (other_effect u g o) (group_effect u g o))
        (if_lem P (has mask read_control)
          (if_lem P (has (met_of u g o) acl_other) (group_effect u g o) (other_effect u g o))
          (no_effect u g o)))

-- Every entry is of a class that was not met before, and adds it, or adds nothing.
pub owner_effect : (e : Ace) (u g o : Bool) → Effect u g o (acl_owner_type e (met_of u g o))
unfolding acl_owner_type
owner_effect e u g o =
    if_lem (Effect u g o) (not (e.ace_type == 0)) (inr (inr (inr (inr (inr refl))))) (
      if_lem (Effect u g o) (has e.ace_flags inherit_only) (inr (inr (inr (inr (inl refl)))))
        (class_effect e.mask u g o))
