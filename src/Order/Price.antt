-- ===== src/Order/Price.antt =====
-- Prices of products, with extra charges for chosen attributes:
-- services/order/src/model/product_price.rs, and `OrderLinePriceModel::finalize_price` of
-- services/order/src/model/order.rs.
pub mod Charge
pub mod Edit
pub mod Find
use Prim.Native.String.{◌++◌, slice}
use e_commerce.Common.{
  ℕ, zero, suc, ◌/◌, ◌%◌, Bool, true, false, ◌&&◌, not, Option, none, some, List, [], ◌∷◌, map,
  String, leb, ltb, ◌==◌, if◌then◌else◌, is_empty, str_eq, mul32,
}
use e_commerce.Common.Int.{ℤ, pos, negsuc, ◌+ℤ◌, leb_ℤ}
use e_commerce.Common.Outcome.{Result, ok, err, ◌>>?◌, ok_or}
use e_commerce.Order.Line.{ProdAttrPricingMap, ProdAttriPriceModel, OrderLinePriceModel}

-- services/common/rust/src/error.rs, without `IOerror`, which holds an error of the standard library
pub data AppErrorCode : Type 0 where
  unknown not_implemented missing_sys_base_path missing_app_base_path : AppErrorCode
  missing_secret_path missing_config_path missing_data_store missing_config : AppErrorCode
  invalid_json_format invalid_version invalid_route_config : AppErrorCode
  missing_alias_log_hdler_cfg missing_alias_logger_cfg : AppErrorCode
  no_route_api_server_cfg no_log_handler_cfg no_logger_cfg feature_disabled : AppErrorCode
  no_handler_in_logger_cfg invalid_handler_logger_cfg empty_input_data : AppErrorCode
  invalid_input crypto_failure rpc_remote_unavail rpc_publish_failure : AppErrorCode
  rpc_consume_failure rpc_remote_invalid_reply rpc_reply_not_ready : AppErrorCode
  no_confidentiality_cfg no_database_cfg remote_db_server_failure : AppErrorCode
  exceeding_max_limit acquire_lock_failure database_server_busy : AppErrorCode
  data_table_not_exist data_corruption http_handshake_failure : AppErrorCode
  product_not_exist : AppErrorCode

-- services/order/src/api/dto.rs
pub data ProdAttrValueDto : Type 0 where
  int : ℤ → ProdAttrValueDto
  str : String → ProdAttrValueDto
  bool : Bool → ProdAttrValueDto

pub record OlineProductAttrDto : Type 0 where
  pub label_id : String
  pub value : ProdAttrValueDto

pub record OrderLineRsvReqDto : Type 0 where
  pub seller_id : ℕ
  pub product_id : ℕ
  pub quantity : ℕ
  pub applied_attr : Option (List OlineProductAttrDto)

pub record ProductPriceModel (T : Type 0) : Type 0 where
  pub price : ℕ
  pub start_after : T
  pub end_before : T
  pub product_id : ℕ
  pub attributes : ProdAttriPriceModel T
  pub is_create : Bool

-- `to_string` of the standard library, on a number of at most `fuel` digits: 10 are enough for an
-- `i32`.
abbrev digit : ℕ → String
digit n = slice "0123456789" n (suc n)

abbrev pub digits : ℕ → ℕ → String
digits zero n = ""
digits (suc fuel) n =
    let rest = digits fuel (n / 10) in if ltb n 10 then digit n else rest ++ digit (n % 10)

abbrev int_text : ℤ → String
int_text (pos n) = digits 10 n
int_text (negsuc n) = "-" ++ digits 10 (suc n)

abbrev value_text : ProdAttrValueDto → String
value_text (int n) = int_text n
value_text (str s) = s
value_text (bool b) = if b then "true" else "false"

-- `ProdAttriPriceModel::map_key`
unfoldable pub map_key : OlineProductAttrDto → String
map_key c = c.label_id ++ "-" ++ value_text c.value

-- `HashMap::get` and `HashMap::insert`
abbrev pub lookup : String → List (String × ℤ) → Option ℤ
lookup k [] = none
lookup k ((j, v) ∷ m) = if str_eq j k then some v else lookup k m

abbrev pub insert : String → ℤ → List (String × ℤ) → List (String × ℤ)
insert k v [] = (k, v) ∷ []
insert k v ((j, w) ∷ m) = if str_eq j k then (j, v) ∷ m else (j, w) ∷ insert k v m

-- `checked_add` on `i32`
abbrev pub in_i32 : ℤ → Bool
in_i32 z = leb_ℤ (negsuc 2_147_483_647) z && leb_ℤ z (pos 2_147_483_647)

abbrev pub checked_add_i32 : ℤ → ℤ → Option ℤ
checked_add_i32 a b = if in_i32 (a +ℤ b) then some (a +ℤ b) else none

-- The fold of `total_amount`, in the order of the iteration.
abbrev pub try_sum : Option ℤ → List (String × ℤ) → Option ℤ
try_sum none m = none
try_sum (some acc) [] = some acc
try_sum (some acc) ((k, v) ∷ m) = try_sum (checked_add_i32 acc v) m

-- `ProdAttriPriceModel::total_amount`
unfoldable pub total_amount : ProdAttrPricingMap → Result AppErrorCode ℤ
total_amount none = ok (pos 0)
total_amount (some m) = ok_or data_corruption (try_sum (some (pos 0)) m)

-- The map of the chosen attributes, if each of them has an extra charge.
unfoldable pub choose :
    List (String × ℤ) → List OlineProductAttrDto → List (String × ℤ) → Option (List (String × ℤ))
choose vm [] acc = some acc
choose vm (c ∷ cs) acc =
    let rest = (λ (v : ℤ). choose vm cs (insert (map_key c) v acc)) in
    elim (lookup (map_key c) vm) [ none ↦ none | some v ↦ rest v ]

abbrev pub extract_from :
    ProdAttrPricingMap → Option (List OlineProductAttrDto) → Result AppErrorCode ProdAttrPricingMap
extract_from pricing none = ok none
extract_from pricing (some []) = ok none
extract_from none (some (c ∷ cs)) = err invalid_input
extract_from (some vm) (some (c ∷ cs)) =
    ok_or invalid_input (choose vm (c ∷ cs) []) >>? λ m. ok (some m)

-- `i32::try_from(u32)` and `u32::try_from(i32)`
abbrev pub i32_of : ℕ → Result AppErrorCode ℤ
i32_of n = if leb n 2_147_483_647 then ok (pos n) else err data_corruption

abbrev pub u32_of : ℤ → Result AppErrorCode ℕ
u32_of (pos n) = ok n
u32_of (negsuc n) = err data_corruption

module _ {T : Type 0} where
  -- `ProductPriceModel::extract_attributes`
  unfoldable pub extract_attributes :
      ProductPriceModel T → OrderLineRsvReqDto → Result AppErrorCode (ProdAttriPriceModel T)
  extract_attributes p d = extract_from p.attributes.pricing d.applied_attr >>? λ m.
      ok (record { pricing = m; last_update = p.attributes.last_update })

  -- `OrderLinePriceModel::finalize_price`
  unfoldable pub finalize_price :
      OrderLineRsvReqDto
      → ProductPriceModel T
      → Result AppErrorCode (OrderLinePriceModel × ProdAttriPriceModel T)
  finalize_price d p = extract_attributes p d >>? λ attrprice. i32_of p.price >>? λ baseprice.
      total_amount attrprice.pricing >>? λ total_attr.
      ok_or data_corruption (checked_add_i32 baseprice total_attr) >>? λ z.
      u32_of z >>? λ unit. ok (record { unit = unit; total = mul32 unit d.quantity }, attrprice)
