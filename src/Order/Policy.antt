-- ===== src/Order/Policy.antt =====
-- Product policies: services/order/src/model/product_policy.rs.
pub mod Limits
pub mod Update
use e_commerce.Common.{
  ℕ, ◌*◌, Bool, true, false, ◌||◌, Option, none, some, List, [], ◌∷◌, ◌++◌, ltb, ◌==◌,
  if◌then◌else◌, is_empty,
}

pub record ProductPolicyModel : Type 0 where
  pub product_id : ℕ
  pub auto_cancel_secs : ℕ
  pub warranty_hours : ℕ
  pub max_num_rsv : ℕ
  pub min_num_rsv : ℕ
  pub is_create : Bool

-- services/order/src/api/web/dto.rs
pub record ProductPolicyDto : Type 0 where
  pub product_id : ℕ
  pub auto_cancel_secs : ℕ
  pub warranty_hours : ℕ
  pub max_num_rsv : Option ℕ
  pub min_num_rsv : Option ℕ

pub record ProductPolicyClientLimitDto : Type 0 where
  pub given : ℕ
  pub limit : ℕ

pub record ProductPolicyNumRsvLimitDto : Type 0 where
  pub min_items : ℕ
  pub max_items : ℕ

-- The text of `err_type`, which names an `AppErrorCode`.
pub data PolicyErrorType : Type 0 where
  empty_input_data exceeding_max_limit : PolicyErrorType

pub record ProductPolicyClientErrorDto : Type 0 where
  pub product_id : ℕ
  pub err_type : PolicyErrorType
  pub auto_cancel_secs : Option ProductPolicyClientLimitDto
  pub warranty_hours : Option ProductPolicyClientLimitDto
  pub num_rsv : Option ProductPolicyNumRsvLimitDto

-- one day
abbrev pub hard_limit_auto_cancel_secs : ℕ
hard_limit_auto_cancel_secs = 3600 * 24

-- 20 years
abbrev pub hard_limit_warranty_hours : ℕ
hard_limit_warranty_hours = 365 * 24 * 20

-- `unwrap_or(0)`
abbrev pub or_zero : Option ℕ → ℕ
or_zero none = 0
or_zero (some n) = n

abbrev pub over_limit : ℕ → ℕ → Option ProductPolicyClientLimitDto
over_limit given limit =
    if ltb limit given then some (record { given = given; limit = limit }) else none

abbrev pub over_range : ℕ → ℕ → Option ProductPolicyNumRsvLimitDto
over_range max_num_rsv min_num_rsv =
    if ltb max_num_rsv min_num_rsv
    then some (record { min_items = min_num_rsv; max_items = max_num_rsv })
    else none

abbrev pub is_some {ℓ} : {A : Type ℓ} → Option A → Bool
is_some none = false
is_some (some a) = true

-- The closure of `validate` on one item.
unfoldable pub check_item : ProductPolicyDto → Option ProductPolicyClientErrorDto
check_item item =
    let auto_cancel = over_limit item.auto_cancel_secs hard_limit_auto_cancel_secs in
    let warranty = over_limit item.warranty_hours hard_limit_warranty_hours in
    let num_rsv = over_range (or_zero item.max_num_rsv) (or_zero item.min_num_rsv) in
    if is_some num_rsv || is_some auto_cancel || is_some warranty
    then some (record {
      product_id = item.product_id;
      err_type = exceeding_max_limit;
      auto_cancel_secs = auto_cancel;
      warranty_hours = warranty;
      num_rsv = num_rsv;
    })
    else none

abbrev pub push_invalid :
    Option ProductPolicyClientErrorDto
    → List ProductPolicyClientErrorDto
    → List ProductPolicyClientErrorDto
push_invalid none es = es
push_invalid (some e) es = e ∷ es

unfoldable pub check_items : List ProductPolicyDto → List ProductPolicyClientErrorDto
unfolding check_item
check_items [] = []
check_items (item ∷ items) = push_invalid (check_item item) (check_items items)

abbrev pub empty_error : ProductPolicyClientErrorDto
empty_error = record {
  product_id = 0;
  err_type = empty_input_data;
  auto_cancel_secs = none;
  warranty_hours = none;
  num_rsv = none;
}

-- `ProductPolicyModelSet::validate`: the errors, of which `Ok(())` has none.
unfoldable pub validate : List ProductPolicyDto → List ProductPolicyClientErrorDto
unfolding check_items
validate [] = empty_error ∷ []
validate (item ∷ items) = check_items (item ∷ items)

-- The policy of a product that had none.
unfoldable pub policy_of_dto : ProductPolicyDto → ProductPolicyModel
policy_of_dto item = record {
  product_id = item.product_id;
  auto_cancel_secs = item.auto_cancel_secs;
  warranty_hours = item.warranty_hours;
  max_num_rsv = or_zero item.max_num_rsv;
  min_num_rsv = or_zero item.min_num_rsv;
  is_create = true;
}

abbrev pub overwrite : ProductPolicyDto → ProductPolicyModel → ProductPolicyModel
overwrite item obj = record obj {
  auto_cancel_secs = item.auto_cancel_secs;
  warranty_hours = item.warranty_hours;
  max_num_rsv = or_zero item.max_num_rsv;
  min_num_rsv = or_zero item.min_num_rsv;
}

-- The closure of `update` on one item: the saved policies, and a new one.
unfoldable pub put_policy :
    ProductPolicyDto → List ProductPolicyModel → List ProductPolicyModel × Option ProductPolicyModel
unfolding policy_of_dto
put_policy item [] = ([], some (policy_of_dto item))
put_policy item (o ∷ os) =
    let rest = put_policy item os in
    if o.product_id == item.product_id then (overwrite item o ∷ os, none) else (o ∷ rest.0, rest.1)

abbrev pub push_policy :
    Option ProductPolicyModel → List ProductPolicyModel → List ProductPolicyModel
push_policy none os = os
push_policy (some o) os = o ∷ os

unfoldable pub put_policies :
    List ProductPolicyDto
    → List ProductPolicyModel
    → List ProductPolicyModel × List ProductPolicyModel
unfolding put_policy
put_policies [] saved = (saved, [])
put_policies (item ∷ items) saved =
    let (saved', new) = put_policy item saved in
    let rest = put_policies items saved' in (rest.0, push_policy new rest.1)

-- `ProductPolicyModelSet::update`
unfoldable pub update : List ProductPolicyDto → List ProductPolicyModel → List ProductPolicyModel
unfolding put_policies
update items policies = let (saved, new) = put_policies items policies in saved ++ new
