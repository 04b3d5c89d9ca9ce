-- ===== src/Order/Policy/Limits.antt =====
-- What `ProductPolicyModelSet::validate` lets through.
use e_commerce.Common.{
  ◌≤◌, ◌≡◌, ◌≢◌, ◌↔◌, refl, Option, none, some, List, [], ◌∷◌, arith, All, All-append,
}
use e_commerce.Order.Policy.{
  ProductPolicyDto, ProductPolicyModel, hard_limit_auto_cancel_secs, hard_limit_warranty_hours,
  or_zero, check_item, check_items, validate, put_policy, put_policies, update, push_policy,
}

-- The limits of one item; a missing number of items counts as zero.
pub record IsAllowed (item : ProductPolicyDto) : Type 0 where
  pub cancel_le : item.auto_cancel_secs ≤ hard_limit_auto_cancel_secs
  pub warranty_le : item.warranty_hours ≤ hard_limit_warranty_hours
  pub range_le : or_zero item.min_num_rsv ≤ or_zero item.max_num_rsv

check_item_iff : (item : ProductPolicyDto) → (check_item item ≡ none) ↔ IsAllowed item
unfolding check_item
check_item_iff item = (λ h. ground arith, λ h. ground (arith, h))

check_items_iff : (items : List ProductPolicyDto) → (check_items items ≡ []) ↔ All IsAllowed items
unfolding check_items
check_items_iff [] = (λ h. tt, λ h. refl)
check_items_iff (item ∷ items) = (
  λ h. ground (arith, (check_item_iff item).0, (check_items_iff items).0),
  λ h. ground (arith, (check_item_iff item).1 h.0, (check_items_iff items).1 h.1),
)

-- A request is let through exactly when it is not empty and each of its items keeps the limits.
pub validate_iff :
    (items : List ProductPolicyDto) → (validate items ≡ []) ↔ ((items ≢ []) × All IsAllowed items)
unfolding validate
validate_iff [] = (λ h. cc, λ h. absurd (h.0 refl))
validate_iff (item ∷ items) = (
  λ h. (λ e. cc, (check_items_iff (item ∷ items)).0 h),
  λ h. (check_items_iff (item ∷ items)).1 h.1,
)

-- The limits of a saved policy.
pub record IsSound (o : ProductPolicyModel) : Type 0 where
  pub cancel_le : o.auto_cancel_secs ≤ hard_limit_auto_cancel_secs
  pub warranty_le : o.warranty_hours ≤ hard_limit_warranty_hours
  pub range_le : o.min_num_rsv ≤ o.max_num_rsv

-- What an item leaves of the saved policies, and the policy that it starts, are sound.
abbrev AreSoundBoth : List ProductPolicyModel × Option ProductPolicyModel → Type 0
AreSoundBoth (os, none) = All IsSound os
AreSoundBoth (os, some o) = All IsSound os × IsSound o

put_policy-AreSound :
    (item : ProductPolicyDto) (os : List ProductPolicyModel)
    → IsAllowed item
    → All IsSound os
    → AreSoundBoth (put_policy item os)
unfolding put_policy
put_policy-AreSound item [] a v = ground (arith, a)
put_policy-AreSound item (o ∷ os) a (v, vs) = ground (arith, put_policy-AreSound item os a vs)

put_policies-AreSound :
    (items : List ProductPolicyDto) (os : List ProductPolicyModel)
    → All IsAllowed items
    → All IsSound os
    → All IsSound (put_policies items os).0 × All IsSound (put_policies items os).1
unfolding put_policies
put_policies-AreSound [] os a v = (v, tt)
put_policies-AreSound (item ∷ items) os (a, as_) v =
    go (put_policy item os) (put_policy-AreSound item os a v)
      (λ os'. put_policies-AreSound items os' as_)
  where
    go :
        (p : List ProductPolicyModel × Option ProductPolicyModel)
        → AreSoundBoth p
        → ((os' : List ProductPolicyModel)
            → All IsSound os'
            → All IsSound (put_policies items os').0 × All IsSound (put_policies items os').1)
        → All IsSound (put_policies items p.0).0
          × All IsSound (push_policy p.1 (put_policies items p.0).1)
    go (os', none) v' ih = ih os' v'
    go (os', some o) v' ih = ((ih os' v'.0).0, (v'.1, (ih os' v'.0).1))

-- A request that was let through by the validation keeps all policies within the hard limits, with
-- no lower bound above the upper one.
pub update-IsSound :
    (items : List ProductPolicyDto) (os : List ProductPolicyModel)
    → validate items ≡ []
    → All IsSound os
    → All IsSound (update items os)
unfolding update
update-IsSound items os h v =
    let (saved, new) = put_policies-AreSound items os ((validate_iff items).0 h).1 v in
    All-append IsSound (put_policies items os).0 (put_policies items os).1 saved new
