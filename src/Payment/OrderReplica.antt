-- ===== src/Payment/OrderReplica.antt =====
-- Orders as the payment service keeps them: services/payment/src/model/order_replica.rs, and the
-- DTOs of services/common/rust/src/api/dto.rs that it is made from.
pub mod Handover
pub mod Currencies
pub mod Replicates
use e_commerce.Common.{
  ℕ, ◌-◌, min, Bool, true, false, ◌&&◌, not, Option, none, some, List, [], ◌∷◌, ◌++◌, map, String,
  leb, ltb, ◌==◌, if◌then◌else◌, find, is_empty, str_eq,
}
use e_commerce.Common.Currency.{CurrencyDto, currency_eq, amount_fraction_scale}
use e_commerce.Common.Chrono.{Chrono}
use e_commerce.Common.Outcome.{
  keep_ok, Outcome, returned, panicked, ◌>>=◌, Result, ok, err, ◌>>?◌, ok_or,
}
use e_commerce.Order.Dto.{GenericRangeErrorDto}
use e_commerce.Order.Line.{BaseProductIdentity}
use e_commerce.Common.Decimal.{Decimal}
use e_commerce.Payment.Amount.{
  PayAmountDto, PayLineAmountModel, PayLineAmountError, AmountResult, default_amount,
}
use e_commerce.Payment.Amount as Amount

pub record CurrencySnapshotDto : Type 0 where
  pub name : CurrencyDto
  pub rate : String

pub record OrderSellerCurrencyDto : Type 0 where
  pub currency : CurrencyDto
  pub seller_id : ℕ

pub record OrderCurrencySnapshotDto : Type 0 where
  pub snapshot : List CurrencySnapshotDto
  pub sellers : List OrderSellerCurrencyDto
  pub buyer : CurrencyDto

pub record OrderLinePayDto : Type 0 where
  pub seller_id : ℕ
  pub product_id : ℕ
  pub attr_set_seq : ℕ
  pub reserved_until : String
  pub quantity : ℕ
  pub amount : PayAmountDto

-- `OrderModelError`, without the texts of libraries.
pub data OrderModelError : Type 0 where
  empty_line : OrderModelError
  zero_quantity rsv_expired rsv_error : BaseProductIdentity → ℕ → OrderModelError
  invalid_amount : BaseProductIdentity → ℕ → PayLineAmountError → OrderModelError
  missing_actors_currency : List ℕ → OrderModelError
  missing_ex_rate : CurrencyDto → OrderModelError
  corrupted_ex_rate : CurrencyDto → String → OrderModelError

pub record OrderLineModel (T D : Type 0) : Type 0 where
  pub pid : BaseProductIdentity
  pub attr_set_seq : ℕ
  pub rsv_total : PayLineAmountModel D
  pub paid_total : PayLineAmountModel D
  pub reserved_until : T

pub record OrderCurrencySnapshot (D : Type 0) : Type 0 where
  pub label : CurrencyDto
  pub rate : D

-- A hash map from users to their currencies, as its entries.
abbrev pub CurrencyMap : Type 0 → Type 0
CurrencyMap D = List (ℕ × OrderCurrencySnapshot D)

pub record OrderLineModelSet (T D : Type 0) : Type 0 where
  pub id : String
  pub buyer_id : ℕ
  pub lines : List (OrderLineModel T D)
  pub create_time : T
  pub num_charges : ℕ
  pub currency_snapshot : CurrencyMap D

-- `u16::try_from(n).unwrap_or(u16::MAX)`
abbrev pub as_u16 : ℕ → ℕ
as_u16 n = min n 65535

-- `HashMap::get` and `insert`
abbrev pub get : {D : Type 0} → ℕ → CurrencyMap D → Option (OrderCurrencySnapshot D)
get k [] = none
get k ((k', v) ∷ m) = if k == k' then some v else get k m

abbrev pub insert : {D : Type 0} → ℕ → OrderCurrencySnapshot D → CurrencyMap D → CurrencyMap D
insert k v [] = (k, v) ∷ []
insert k v ((k', v') ∷ m) = if k == k' then (k, v) ∷ m else (k', v') ∷ insert k v m

-- `HashMap::from_iter`: a later entry replaces an earlier one.
abbrev pub insert_all : {D : Type 0} → CurrencyMap D → CurrencyMap D → CurrencyMap D
insert_all m [] = m
insert_all m ((k, v) ∷ es) = insert_all (insert k v m) es

abbrev pub pid_of : OrderLinePayDto → BaseProductIdentity
pid_of d = record { store_id = d.seller_id; product_id = d.product_id }

module _ {T D : Type 0} where
  abbrev pub is_line_at : ℕ × ℕ × ℕ → OrderLineModel T D → Bool
  is_line_at (seller, product, seq) v =
      v.pid.store_id == seller && v.pid.product_id == product && v.attr_set_seq == seq

  -- `OrderLineModel::find`
  unfoldable pub find_line : List (OrderLineModel T D) → ℕ × ℕ × ℕ → Option (OrderLineModel T D)
  find_line ms key = find (is_line_at key) ms

  unfoldable pub check_qty_avail : OrderLineModel T D → ℕ → Result GenericRangeErrorDto ℕ
  check_qty_avail m qty_req =
      if ltb m.rsv_total.qty m.paid_total.qty
      then err (record { max_ = as_u16 m.rsv_total.qty; given = m.paid_total.qty; min_ = 0 })
      else (let q_avail = m.rsv_total.qty - m.paid_total.qty in
          if leb qty_req q_avail
          then ok q_avail
          else err (record { max_ = as_u16 q_avail; given = qty_req; min_ = 1 }))

module _ {T D : Type 0} ⦃c : Chrono T⦄ ⦃d : Decimal D⦄ where
  abbrev pub line_with_amount :
      OrderLinePayDto
      → T
      → AmountResult (PayLineAmountModel D)
      → Result OrderModelError (OrderLineModel T D)
  line_with_amount dto reserved_until (Amount.err e) =
      err (invalid_amount (pid_of dto) dto.attr_set_seq e)
  line_with_amount dto reserved_until (Amount.ok rsv_total) = ok (record {
    pid = pid_of dto;
    attr_set_seq = dto.attr_set_seq;
    paid_total = default_amount;
    rsv_total = rsv_total;
    reserved_until = reserved_until;
  })

  abbrev pub line_until :
      OrderLinePayDto → CurrencyDto → T → Option T → Result OrderModelError (OrderLineModel T D)
  line_until dto label now none = err (rsv_error (pid_of dto) dto.attr_set_seq)
  line_until dto label now (some t) =
      if c.le t now
      then err (rsv_expired (pid_of dto) dto.attr_set_seq)
      else line_with_amount dto t
          (Amount.try_from dto.quantity dto.amount (amount_fraction_scale label))

  -- `TryFrom<(OrderLinePayDto, CurrencyDto)> for OrderLineModel`, at the time `now` of the clock
  unfoldable pub line_try_from :
      OrderLinePayDto → CurrencyDto → T → Result OrderModelError (OrderLineModel T D)
  line_try_from dto label now =
      if dto.quantity == 0
      then err (zero_quantity (pid_of dto) dto.attr_set_seq)
      else line_until dto label now (c.parse_rfc3339 dto.reserved_until)

module _ {D : Type 0} ⦃d : Decimal D⦄ where
  -- `TryFrom<(CurrencyDto, &Vec<CurrencySnapshotDto>)> for OrderCurrencySnapshot`
  unfoldable pub snapshot_try_from :
      CurrencyDto → List CurrencySnapshotDto → Result OrderModelError (OrderCurrencySnapshot D)
  snapshot_try_from label src =
      ok_or (missing_ex_rate label) (find (λ s. currency_eq s.name label) src) >>? λ s.
      ok_or (corrupted_ex_rate label s.rate) (d.of_str s.rate) >>? λ rate.
      ok (record { label = label; rate = rate })

  abbrev pub seller_snapshot :
      List CurrencySnapshotDto
      → OrderSellerCurrencyDto
      → Result OrderModelError (ℕ × OrderCurrencySnapshot D)
  seller_snapshot src s = snapshot_try_from s.currency src >>? λ m. ok (s.seller_id, m)

  abbrev pub with_buyer :
      ℕ
      → CurrencyMap D
      → Result OrderModelError (OrderCurrencySnapshot D)
      → Result (List OrderModelError) (CurrencyMap D)
  with_buyer buyer_id m (ok s) = ok (insert buyer_id s m)
  with_buyer buyer_id m (err e) = err (e ∷ [])

  unfoldable pub try_build_currency_snapshot :
      ℕ → OrderCurrencySnapshotDto → Result (List OrderModelError) (CurrencyMap D)
  try_build_currency_snapshot buyer_id data_ =
      let (entries, errors) = keep_ok (seller_snapshot data_.snapshot) data_.sellers in
      if is_empty errors
      then with_buyer buyer_id (insert_all [] entries)
          (snapshot_try_from data_.buyer data_.snapshot)
      else err errors

abbrev pub contains : ℕ → List ℕ → Bool
contains x [] = false
contains x (y ∷ ys) = if x == y then true else contains x ys

-- The difference of two sets of numbers, in the order of the first list.
abbrev pub uncovered : List ℕ → List ℕ → List ℕ
uncovered [] provided = []
uncovered (x ∷ xs) provided =
    let rest = uncovered xs provided in
    if contains x provided then rest else if contains x rest then rest else x ∷ rest

unfoldable pub verify_seller_currency_integrity :
    List OrderLinePayDto → List OrderSellerCurrencyDto → List OrderModelError
verify_seller_currency_integrity required provided =
    let ids = uncovered (map (λ v. v.seller_id) required) (map (λ v. v.seller_id) provided) in
    if is_empty ids then [] else missing_actors_currency ids ∷ []

abbrev pub errors_of : {A : Type 0} → Result (List OrderModelError) A → List OrderModelError
errors_of (ok a) = []
errors_of (err es) = es

module _ {T D : Type 0} ⦃c : Chrono T⦄ ⦃d : Decimal D⦄ where
  abbrev pub with_lines :
      String
      → ℕ
      → T
      → CurrencyMap D
      → List (OrderLineModel T D) × List OrderModelError
      → Result (List OrderModelError) (OrderLineModelSet T D)
  with_lines oid buyer_id now currencies (lines, errors) =
      if is_empty errors
      then ok (record {
        id = oid;
        buyer_id = buyer_id;
        lines = lines;
        currency_snapshot = currencies;
        create_time = now;
        num_charges = 0;
      })
      else err errors

  -- the part after the first errors, with the two calls of `unwrap`
  abbrev pub with_currencies :
      String
      → ℕ
      → List OrderLinePayDto
      → T
      → Result (List OrderModelError) (CurrencyMap D)
      → Outcome (Result (List OrderModelError) (OrderLineModelSet T D))
  with_currencies oid buyer_id dtos now (err es) = panicked
  with_currencies oid buyer_id dtos now (ok currencies) = elim (get buyer_id currencies) [
    | none ↦ panicked
    | some s ↦ returned (
        with_lines oid buyer_id now currencies
          (keep_ok (λ dto. line_try_from dto s.label now) dtos))
  ]

  -- `TryFrom<(String, u32, Vec<OrderLinePayDto>, OrderCurrencySnapshotDto)> for OrderLineModelSet`
  unfoldable pub try_from :
      String
      → ℕ
      → List OrderLinePayDto
      → OrderCurrencySnapshotDto
      → T
      → Outcome (Result (List OrderModelError) (OrderLineModelSet T D))
  try_from oid buyer_id dtos currency_d now =
      let result = try_build_currency_snapshot buyer_id currency_d in
      let errors =
        (if is_empty dtos then empty_line ∷ [] else [])
        ++ verify_seller_currency_integrity dtos currency_d.sellers
        ++ errors_of result in
      if is_empty errors
      then with_currencies oid buyer_id dtos now result
      else returned (err errors)
