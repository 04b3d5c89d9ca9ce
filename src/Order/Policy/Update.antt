-- ===== src/Order/Policy/Update.antt =====
-- Which limits a product has after `ProductPolicyModelSet::update`.
use e_commerce.Common.{
  ℕ, ◌≡◌, refl, true, Option, none, some, List, [], ◌∷◌, ◌++◌, arith, ◌==◌, if◌then◌else◌,
  Option-cases, inl, inr,
}
use e_commerce.Order.Policy.{
  ProductPolicyDto, ProductPolicyModel, or_zero, is_some, put_policy, put_policies, update,
  policy_of_dto,
}

abbrev pub PolicyLimits : Type 0
PolicyLimits = ℕ × ℕ × ℕ × ℕ

-- The limits of a product, by the first policy that is for it.
abbrev pub limits_of : ℕ → List ProductPolicyModel → Option PolicyLimits
limits_of pid [] = none
limits_of pid (o ∷ os) =
    if o.product_id == pid
    then some (o.auto_cancel_secs, o.warranty_hours, o.max_num_rsv, o.min_num_rsv)
    else limits_of pid os

abbrev pub asked : ProductPolicyDto → PolicyLimits
asked i = (i.auto_cancel_secs, i.warranty_hours, or_zero i.max_num_rsv, or_zero i.min_num_rsv)

-- The first and the last item of a request for a product.
abbrev pub first_asked : ℕ → List ProductPolicyDto → Option PolicyLimits
first_asked pid [] = none
first_asked pid (i ∷ is) = if i.product_id == pid then some (asked i) else first_asked pid is

abbrev pub last_asked : ℕ → Option PolicyLimits → List ProductPolicyDto → Option PolicyLimits
last_asked pid acc [] = acc
last_asked pid acc (i ∷ is) =
    last_asked pid (if i.product_id == pid then some (asked i) else acc) is

put_policy-limits_of :
    (i : ProductPolicyDto) (os : List ProductPolicyModel) (pid : ℕ)
    → limits_of pid (put_policy i os).0 ≡ (
        if is_some (limits_of pid os)
        then (if i.product_id == pid then some (asked i) else limits_of pid os)
        else none)
unfolding put_policy
put_policy-limits_of i [] pid = refl
put_policy-limits_of i (o ∷ os) pid = ground (arith, put_policy-limits_of i os pid)

put_policy-new :
    (i : ProductPolicyDto) (os : List ProductPolicyModel)
    → (put_policy i os).1
      ≡ (if is_some (limits_of i.product_id os) then none else some (policy_of_dto i))
unfolding put_policy
put_policy-new i [] = refl
put_policy-new i (o ∷ os) = ground (arith, put_policy-new i os)

limits_of-policy_of_dto :
    (i : ProductPolicyDto) (os : List ProductPolicyModel) (pid : ℕ)
    → limits_of pid (policy_of_dto i ∷ os)
      ≡ (if i.product_id == pid then some (asked i) else limits_of pid os)
unfolding policy_of_dto
limits_of-policy_of_dto i os pid = refl

limits_of-append :
    (os ns : List ProductPolicyModel) (pid : ℕ)
    → limits_of pid (os ++ ns)
      ≡ (if is_some (limits_of pid os) then limits_of pid os else limits_of pid ns)
limits_of-append [] ns pid = refl
limits_of-append (o ∷ os) ns pid = ground (arith, limits_of-append os ns pid)

put_policies-saved :
    (is : List ProductPolicyDto) (os : List ProductPolicyModel) (pid : ℕ)
    → limits_of pid (put_policies is os).0
      ≡ (if is_some (limits_of pid os) then last_asked pid (limits_of pid os) is else none)
unfolding put_policies
put_policies-saved [] os pid = ground arith
put_policies-saved (i ∷ is) os pid =
    ground (arith, put_policy-limits_of i os pid, put_policies-saved is (put_policy i os).0 pid)

put_policies-new :
    (is : List ProductPolicyDto) (os : List ProductPolicyModel) (pid : ℕ)
    → limits_of pid os ≡ none
    → limits_of pid (put_policies is os).1 ≡ first_asked pid is
unfolding put_policies
put_policies-new [] os pid h = refl
put_policies-new (i ∷ is) os pid h = ground (
  arith,
  put_policy-limits_of i os pid,
  put_policy-new i os,
  limits_of-policy_of_dto i (put_policies is (put_policy i os).0).1 pid,
  put_policies-new is (put_policy i os).0 pid,
)

last_asked-is_some :
    (pid : ℕ) (l : PolicyLimits) (is : List ProductPolicyDto)
    → is_some (last_asked pid (some l) is) ≡ true
last_asked-is_some pid l [] = refl
last_asked-is_some pid l (i ∷ is) =
    ground (arith, last_asked-is_some pid (asked i) is, last_asked-is_some pid l is)

-- For a product that has a policy the last item of a request counts; for one that has none, the
-- first item counts, since the later ones do not see it.
pub update-limits_of :
    (is : List ProductPolicyDto) (os : List ProductPolicyModel) (pid : ℕ)
    → limits_of pid (update is os) ≡ (
        if is_some (limits_of pid os)
        then last_asked pid (limits_of pid os) is
        else first_asked pid is)
unfolding update
update-limits_of is os pid = elim (Option-cases (limits_of pid os)) [
  | inl absent ↦ ground (
    arith,
    limits_of-append (put_policies is os).0 (put_policies is os).1 pid,
    put_policies-saved is os pid,
    put_policies-new is os pid absent,
  )
  | inr (l, present) ↦ ground (
    arith,
    limits_of-append (put_policies is os).0 (put_policies is os).1 pid,
    put_policies-saved is os pid,
    last_asked-is_some pid l is,
  )
]
