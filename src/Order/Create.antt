-- ===== src/Order/Create.antt =====
-- Making order lines and orders: `OrderLineModel::try_from`, `update_attr_seqs`, `OlineDupError` and
-- `OrderLineModelSet::try_from_inner` of services/order/src/model/order.rs.
pub mod Limits
pub mod Seqs
pub mod Duplicates
use e_commerce.Common.{
  ℕ, ◌+◌, ◌%◌, ◌^◌, Bool, true, false, ◌&&◌, ◌||◌, not, Option, none, some, List, [], ◌∷◌, map,
  String, ltb, ◌==◌, str_eq, if◌then◌else◌, is_empty,
}
use Prim.Native.String.{compare}
use Prim.Native.Nat.{Ordering}
use e_commerce.Common.Int.{ℤ}
use e_commerce.Common.Chrono.{Chrono}
use e_commerce.Common.Outcome.{Result, ok, err, ◌>>?◌}
use e_commerce.Order.Line.{
  BaseProductIdentity, OrderLineIdentity, OrderLineModel, OrderLinePriceModel, ProdAttriPriceModel,
  ProdAttrPricingMap,
}
use e_commerce.Order.Return.{identity_of}
use e_commerce.Order.Policy.{ProductPolicyModel}
use e_commerce.Order.Price.{
  AppErrorCode, data_corruption, exceeding_max_limit, OrderLineRsvReqDto, ProductPriceModel,
  finalize_price,
}

-- `PartialEq` of `BaseProductIdentity`
abbrev pub base_eq : BaseProductIdentity → BaseProductIdentity → Bool
base_eq a b = a.store_id == b.store_id && a.product_id == b.product_id

module _ {T : Type 0} where
  unfoldable pub validate_id_match :
      OrderLineRsvReqDto → ProductPolicyModel → ProductPriceModel T → Result AppErrorCode (Unit {0})
  validate_id_match d policym pricem =
      if not (d.product_id == policym.product_id)
      then err data_corruption
      else if not (d.product_id == pricem.product_id)
      then err data_corruption
      else ok tt

unfoldable pub validate_rsv_limit :
    OrderLineRsvReqDto → ProductPolicyModel → Result AppErrorCode (Unit {0})
validate_rsv_limit d policym =
    let cond1 = ltb 0 policym.max_num_rsv && ltb policym.max_num_rsv d.quantity in
    let cond2 = ltb 0 policym.min_num_rsv && ltb d.quantity policym.min_num_rsv in
    if cond1 || cond2 then err exceeding_max_limit else ok tt

module _ {T : Type 0} ⦃c : Chrono T⦄ where
  -- `OrderLineModel::try_from`, at the time `timenow` of the clock.
  unfoldable pub try_from :
      T
      → OrderLineRsvReqDto
      → ProductPolicyModel
      → ProductPriceModel T
      → Result AppErrorCode (OrderLineModel T)
  try_from timenow d policym pricem = validate_id_match d policym pricem >>? λ u.
      validate_rsv_limit d policym >>? λ v. finalize_price d pricem >>? λ pa. ok (record {
        id_ = identity_of (d.seller_id, d.product_id, 0);
        price = pa.0;
        policy = record {
          reserved_until = c.add_secs timenow policym.auto_cancel_secs;
          warranty_until = c.add_hours timenow policym.warranty_hours;
        };
        qty = record { reserved = d.quantity; paid = 0; paid_last_update = none };
        attrs_charge = pa.1;
      })

-- The hash map of `update_attr_seqs`: the next number of a product, a `u16`.
abbrev pub next_seq : BaseProductIdentity → List (BaseProductIdentity × ℕ) → ℕ
next_seq k [] = 0
next_seq k ((j, n) ∷ m) = if base_eq j k then n else next_seq k m

abbrev pub put_seq :
    BaseProductIdentity → ℕ → List (BaseProductIdentity × ℕ) → List (BaseProductIdentity × ℕ)
put_seq k n [] = (k, n) ∷ []
put_seq k n ((j, i) ∷ m) = if base_eq j k then (j, n) ∷ m else (j, i) ∷ put_seq k n m

module _ {T : Type 0} where
  unfoldable pub number_lines :
      List (BaseProductIdentity × ℕ) → List (OrderLineModel T) → List (OrderLineModel T)
  number_lines grps [] = []
  number_lines grps (l ∷ ls) =
      let curr_seq = next_seq l.id_.base grps in
      record l { id_ = record l.id_ { attr_set_req = curr_seq } }
      ∷ number_lines (put_seq l.id_.base ((curr_seq + 1) % 2 ^ 16) grps) ls

  -- `OrderLineModel::update_attr_seqs`
  unfoldable pub update_attr_seqs : List (OrderLineModel T) → List (OrderLineModel T)
  update_attr_seqs = number_lines []

-- `ProdAttriPriceModel::applied_attributes`, sorted as `find_duplicate` does
abbrev pub str_le : String → String → Bool
str_le a b = elim (compare a b) [ Ordering.gt ↦ false | _ ↦ true ]

abbrev pub insert_text : String → List String → List String
insert_text s [] = s ∷ []
insert_text s (x ∷ xs) = if str_le s x then s ∷ x ∷ xs else x ∷ insert_text s xs

abbrev pub sort_texts : List String → List String
sort_texts [] = []
sort_texts (s ∷ ss) = insert_text s (sort_texts ss)

abbrev pub keys : List (String × ℤ) → List String
keys [] = []
keys ((k, v) ∷ m) = k ∷ keys m

abbrev pub applied_attributes : ProdAttrPricingMap → List String
applied_attributes none = []
applied_attributes (some m) = keys m

pub record OlineDupError : Type 0 where
  pub base_id : BaseProductIdentity
  pub attr_vals : List String

abbrev pub texts_eq : List String → List String → Bool
texts_eq [] [] = true
texts_eq [] (y ∷ ys) = false
texts_eq (x ∷ xs) [] = false
texts_eq (x ∷ xs) (y ∷ ys) = str_eq x y && texts_eq xs ys

abbrev pub dup_eq : OlineDupError → OlineDupError → Bool
dup_eq a b = base_eq a.base_id b.base_id && texts_eq a.attr_vals b.attr_vals

module _ {T : Type 0} where
  unfoldable pub dup_key : OrderLineModel T → OlineDupError
  dup_key l = record {
    base_id = l.id_.base;
    attr_vals = sort_texts (applied_attributes l.attrs_charge.pricing);
  }

-- The hash map of groups, as each key with the number of its lines, in the order of the iteration.
abbrev pub push_group : OlineDupError → List (OlineDupError × ℕ) → List (OlineDupError × ℕ)
push_group k [] = (k, 1) ∷ []
push_group k ((j, n) ∷ m) = if dup_eq j k then (j, n + 1) ∷ m else (j, n) ∷ push_group k m

abbrev pub repeated : List (OlineDupError × ℕ) → List OlineDupError
repeated [] = []
repeated ((k, n) ∷ m) = if ltb 1 n then k ∷ repeated m else repeated m

module _ {T : Type 0} where
  unfoldable pub group_lines :
      List (OlineDupError × ℕ) → List (OrderLineModel T) → List (OlineDupError × ℕ)
  group_lines grps [] = grps
  group_lines grps (l ∷ ls) = group_lines (push_group (dup_key l) grps) ls

  -- `OlineDupError::find_duplicate`
  unfoldable pub find_duplicate : List (OrderLineModel T) → List OlineDupError
  find_duplicate ls = repeated (group_lines [] ls)

  -- The lines of `OrderLineModelSet::try_from_inner`.
  unfoldable pub try_from_inner :
      List (OrderLineModel T) → Bool → Result (List OlineDupError) (List (OrderLineModel T))
  try_from_inner lines renumber =
      let dup_errs = find_duplicate lines in
      if not (is_empty dup_errs)
      then err dup_errs
      else if renumber
      then ok (update_attr_seqs lines)
      else ok lines
