-- ===== src/Order/Line.antt =====
-- Order lines: the data of services/order/src/model/order.rs, over a type `T` of instants.
pub mod Payment
use e_commerce.Common.{ℕ, Bool, ◌&&◌, Option, List, String, ◌==◌, ltb}
use e_commerce.Common.Int.{ℤ}

-- `services/common/rust/src/model/mod.rs`
pub record BaseProductIdentity : Type 0 where
  pub store_id : ℕ
  pub product_id : ℕ

pub record OrderLineIdentity : Type 0 where
  pub base : BaseProductIdentity
  pub attr_set_req : ℕ

pub record OrderLinePriceModel : Type 0 where
  pub unit : ℕ
  pub total : ℕ

-- A hash map of extra charges by attribute, as its entries in the order of the iteration.
abbrev pub ProdAttrPricingMap : Type 0
ProdAttrPricingMap = Option (List (String × ℤ))

module _ (T : Type 0) where
  pub record OrderLineAppliedPolicyModel : Type 0 where
    pub reserved_until : T
    pub warranty_until : T

  pub record OrderLineQuantityModel : Type 0 where
    pub reserved : ℕ
    pub paid : ℕ
    pub paid_last_update : Option T

  pub record ProdAttriPriceModel : Type 0 where
    pub pricing : ProdAttrPricingMap
    pub last_update : T

  pub record OrderLineModel : Type 0 where
    pub id_ : OrderLineIdentity
    pub price : OrderLinePriceModel
    pub attrs_charge : ProdAttriPriceModel
    pub policy : OrderLineAppliedPolicyModel
    pub qty : OrderLineQuantityModel

abbrev pub store_id : OrderLineIdentity → ℕ
store_id i = i.base.store_id

abbrev pub product_id : OrderLineIdentity → ℕ
product_id i = i.base.product_id

-- `OrderLineIdentity::compare_raw`
unfoldable pub compare_raw : OrderLineIdentity → ℕ × ℕ × ℕ → Bool
compare_raw i (store, prod, seq) =
    store_id i == store && product_id i == prod && i.attr_set_req == seq

-- `OrderLineQuantityModel::has_unpaid`
unfoldable pub has_unpaid : {T : Type 0} → OrderLineQuantityModel T → Bool
has_unpaid q = ltb q.paid q.reserved

-- `PartialEq` of `OrderLineIdentity`
unfoldable pub id_eq : OrderLineIdentity → OrderLineIdentity → Bool
id_eq a b =
    (store_id a == store_id b && product_id a == product_id b) && a.attr_set_req == b.attr_set_req
