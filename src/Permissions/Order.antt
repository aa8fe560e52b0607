-- ===== src/Permissions/Order.antt =====
-- The roles form an order (app/core/permissions.py, `has_role`).
use scales_infrastructure.Prelude.{
  ◌≡◌, refl, ap, ◌∙◌, Bool, true, false, ◌||◌, List, [], ◌∷◌, any_of, arith,
}
use scales_infrastructure.Models.Tables.{Role}
use scales_infrastructure.Permissions.{role_hierarchy, same_role, has_role, has_any_role}

-- Acting for others is transitive: who may act as a role may do what that role may.
pub has_role_trans :
    (a b c : Role) → has_role a b ≡ true → has_role b c ≡ true → has_role a c ≡ true
unfolding has_role
has_role_trans a b c h k = ground arith

module _ {A : Type 0} where
  any_of-or :
      (p q : A → Bool) (xs : List A) → any_of (λ x. p x || q x) xs ≡ (any_of p xs || any_of q xs)
  any_of-or p q [] = refl
  any_of-or p q (x ∷ xs) = ground (arith, any_of-or p q xs)

  any_of-same : (p q : A → Bool) → ((x : A) → p x ≡ q x) → (xs : List A) → any_of p xs ≡ any_of q xs
  any_of-same p q h [] = refl
  any_of-same p q h (x ∷ xs) = ground (arith, h x, any_of-same p q h xs)

  any_of_none : (xs : List A) → any_of (λ x. false) xs ≡ false
  any_of_none [] = refl
  any_of_none (x ∷ xs) = any_of_none xs

  any_of_swap :
      {B : Type 0} (R : A → B → Bool) (xs : List A) (ys : List B)
      → any_of (λ x. any_of (R x) ys) xs ≡ any_of (λ y. any_of (λ x. R x y) xs) ys
  any_of_swap R xs [] = any_of_none xs
  any_of_swap R xs (y ∷ ys) =
      any_of-or (λ x. R x y) (λ x. any_of (R x) ys) xs
      ∙ ap (λ b. any_of (λ x. R x y) xs || b) (any_of_swap R xs ys)

same_role_sym : (a b : Role) → same_role a b ≡ same_role b a
same_role_sym a b = ground arith

-- For a set of roles, one of them that the user may act as is enough, and needed.
pub has_any_role-has_role :
    (a : Role) (required : List Role) → has_any_role a required ≡ any_of (has_role a) required
unfolding has_any_role has_role
has_any_role-has_role a required =
    any_of_swap same_role (role_hierarchy a) required
    ∙ any_of-same _ (has_role a)
        (λ r.
          any_of-same (λ x. same_role x r) (same_role r) (λ x. same_role_sym x r)
            (role_hierarchy a))
        required
