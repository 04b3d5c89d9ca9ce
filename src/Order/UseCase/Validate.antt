-- ===== src/Order/UseCase/Validate.antt =====
-- How the lines of a request become order lines: `CreateOrderUseCase::validate_orderline` of
-- services/order/src/usecase/manage_order.rs, which composes policies and prices.
use e_commerce.Common.{
  ℕ, suc, ◌≡◌, refl, Bool, true, false, Option, none, some, List, [], ◌∷◌, ◌==◌, if◌then◌else◌,
  find, find-found, is_empty, arith, Bool-cases, inl, inr,
}
use mathlib.Core.List.{Memᴰ}
use mathlib.Core.Path.{subst}
use e_commerce.Common.Chrono.{Chrono}
use e_commerce.Common.Outcome.{Result, ok, err}
use e_commerce.Order.Dto.{OrderLineCreateErrorDto, not_exist, rsv_limit_violation}
use e_commerce.Order.Line.{OrderLineModel}
use e_commerce.Order.Policy.{ProductPolicyModel}
use e_commerce.Order.Price.{
  AppErrorCode, exceeding_max_limit, OrderLineRsvReqDto, ProductPriceModel,
}
use e_commerce.Order.Price.Find.{
  ProductPriceModelSet, find_price, IsPriceFor, find_price-IsPriceFor,
}
use e_commerce.Order.Create.{try_from}
use e_commerce.Order.Create.Limits.{Creates, try_from-Creates}

-- What becomes of one line: an order line, an error of the client, or one of the server.
pub data Checked (T : Type 0) : Type 0 where
  made : OrderLineModel T → Checked T
  client_error : OrderLineCreateErrorDto → Checked T
  server_error : AppErrorCode → Checked T

-- Of `CreateOrderUsKsErr`, the errors that the function returns.
pub data ValidateError : Type 0 where
  server : List AppErrorCode → ValidateError
  req_content : List OrderLineCreateErrorDto → ValidateError

pub record Validated (T : Type 0) : Type 0 where
  pub lines : List (OrderLineModel T)
  pub client_errors : List OrderLineCreateErrorDto
  pub server_errors : List AppErrorCode

abbrev pub limit_error : OrderLineRsvReqDto → ProductPolicyModel → OrderLineCreateErrorDto
limit_error d plc = record {
  seller_id = d.seller_id;
  product_id = d.product_id;
  rsv_limit = some (record { max_ = plc.max_num_rsv; min_ = plc.min_num_rsv; given = d.quantity });
  nonexist = none;
  shortage = none;
  attr_vals = none;
  reason = rsv_limit_violation;
}

abbrev pub nonexist_error : OrderLineRsvReqDto → Bool → Bool → OrderLineCreateErrorDto
nonexist_error d plc_nonexist price_nonexist = record {
  seller_id = d.seller_id;
  product_id = d.product_id;
  rsv_limit = none;
  reason = not_exist;
  nonexist = some (record {
    product_price = price_nonexist;
    product_policy = plc_nonexist;
    stock_seller = false;
  });
  shortage = none;
  attr_vals = none;
}

-- `e.code == AppErrorCode::ExceedingMaxLimit`
abbrev pub is_exceeding : AppErrorCode → Bool
is_exceeding exceeding_max_limit = true
is_exceeding _ = false

abbrev pub find_policy : OrderLineRsvReqDto → List ProductPolicyModel → Option ProductPolicyModel
find_policy d = find (λ m. m.product_id == d.product_id)

module _ {T : Type 0} where
  abbrev pub checked_line :
      OrderLineRsvReqDto → ProductPolicyModel → Result AppErrorCode (OrderLineModel T) → Checked T
  checked_line d plc (ok l) = made l
  checked_line d plc (err e) =
      if is_exceeding e then client_error (limit_error d plc) else server_error e

  abbrev pub push_checked : Checked T → Validated T → Validated T
  push_checked (made l) v = record v { lines = l ∷ v.lines }
  push_checked (client_error e) v = record v { client_errors = e ∷ v.client_errors }
  push_checked (server_error e) v = record v { server_errors = e ∷ v.server_errors }

  abbrev pub conclude : Validated T → Result ValidateError (List (OrderLineModel T))
  conclude v =
      if is_empty v.server_errors
      then (if is_empty v.client_errors then ok v.lines else err (req_content v.client_errors))
      else err (server v.server_errors)

module _ {T : Type 0} ⦃c : Chrono T⦄ where
  abbrev pub with_found :
      T → OrderLineRsvReqDto → Option ProductPolicyModel → Option (ProductPriceModel T) → Checked T
  with_found now d (some plc) (some price) = checked_line d plc (try_from now d plc price)
  with_found now d none (some price) = client_error (nonexist_error d true false)
  with_found now d (some plc) none = client_error (nonexist_error d false true)
  with_found now d none none = client_error (nonexist_error d true true)

  -- the loop, with the readings `now` of the clock, one for each line from the `i`th on
  abbrev pub check_lines :
      (ℕ → T)
      → ℕ
      → List ProductPolicyModel
      → List (ProductPriceModelSet T)
      → List OrderLineRsvReqDto
      → Validated T
  check_lines now i ms_policy ms_price [] = record {
    lines = [];
    client_errors = [];
    server_errors = [];
  }
  check_lines now i ms_policy ms_price (d ∷ ds) =
      push_checked (with_found (now i) d (find_policy d ms_policy) (find_price d ms_price))
        (check_lines now (suc i) ms_policy ms_price ds)

  unfoldable pub validate_orderline :
      (ℕ → T)
      → List ProductPolicyModel
      → List (ProductPriceModelSet T)
      → List OrderLineRsvReqDto
      → Result ValidateError (List (OrderLineModel T))
  validate_orderline now ms_policy ms_price data_ =
      conclude (check_lines now 0 ms_policy ms_price data_)

  -- A line is made of a policy of its product and a price that its seller has for its request,
  -- which are those found first.
  abbrev pub IsMadeOf :
      T
      → List ProductPolicyModel
      → List (ProductPriceModelSet T)
      → OrderLineRsvReqDto
      → OrderLineModel T
      → Type 0
  IsMadeOf t ms_policy ms_price d l =
      (plc : ProductPolicyModel) × (price : ProductPriceModel T) × (find_policy d ms_policy
        ≡ some plc)
      × (find_price d ms_price ≡ some price)
      × Memᴰ plc ms_policy
      × IsPriceFor d ms_price price
      × Creates t d plc price (ok l)

  abbrev pub AreMadeOf :
      (ℕ → T)
      → ℕ
      → List ProductPolicyModel
      → List (ProductPriceModelSet T)
      → List OrderLineRsvReqDto
      → List (OrderLineModel T)
      → Type 0
  AreMadeOf now i ms_policy ms_price [] [] = Unit
  AreMadeOf now i ms_policy ms_price [] (l ∷ ls) = ⊥
  AreMadeOf now i ms_policy ms_price (d ∷ ds) [] = ⊥
  AreMadeOf now i ms_policy ms_price (d ∷ ds) (l ∷ ls) =
      IsMadeOf (now i) ms_policy ms_price d l × AreMadeOf now (suc i) ms_policy ms_price ds ls

  -- How the validation ends.
  unfoldable pub Validates :
      (ℕ → T)
      → List ProductPolicyModel
      → List (ProductPriceModelSet T)
      → List OrderLineRsvReqDto
      → Result ValidateError (List (OrderLineModel T))
      → Type 0
  Validates now ms_policy ms_price ds (ok ls) = AreMadeOf now 0 ms_policy ms_price ds ls
  Validates now ms_policy ms_price ds (err (server es)) = is_empty es ≡ false
  Validates now ms_policy ms_price ds (err (req_content es)) = is_empty es ≡ false

  checked_line-made :
      (d : OrderLineRsvReqDto) (plc : ProductPolicyModel)
      (r : Result AppErrorCode (OrderLineModel T)) (l : OrderLineModel T)
      → checked_line d plc r ≡ made l
      → r ≡ ok l
  checked_line-made d plc (ok l') l h = ground (arith, h)
  checked_line-made d plc (err e) l h = ground (arith, h)

  with_found-IsMadeOf :
      (t : T) (ms_policy : List ProductPolicyModel) (ms_price : List (ProductPriceModelSet T))
      (d : OrderLineRsvReqDto) (o : Option ProductPolicyModel) (p : Option (ProductPriceModel T))
      (l : OrderLineModel T)
      → find_policy d ms_policy ≡ o
      → find_price d ms_price ≡ p
      → with_found t d o p ≡ made l
      → IsMadeOf t ms_policy ms_price d l
  with_found-IsMadeOf t ms_policy ms_price d (some plc) (some price) l eo ep h =
      let done = checked_line-made d plc (try_from t d plc price) l h in
      (
        plc,
        price,
        eo,
        ep,
        (find-found (λ m. m.product_id == d.product_id) ms_policy plc eo).0,
        find_price-IsPriceFor d ms_price price ep,
        subst (Creates t d plc price) done (try_from-Creates t d plc price),
      )
  with_found-IsMadeOf t ms_policy ms_price d none (some price) l eo ep h = ground (arith, h)
  with_found-IsMadeOf t ms_policy ms_price d (some plc) none l eo ep h = ground (arith, h)
  with_found-IsMadeOf t ms_policy ms_price d none none l eo ep h = ground (arith, h)

  check_lines-AreMadeOf :
      (now : ℕ → T) (i : ℕ) (ms_policy : List ProductPolicyModel)
      (ms_price : List (ProductPriceModelSet T)) (ds : List OrderLineRsvReqDto)
      → is_empty (check_lines now i ms_policy ms_price ds).client_errors ≡ true
      → is_empty (check_lines now i ms_policy ms_price ds).server_errors ≡ true
      → AreMadeOf now i ms_policy ms_price ds (check_lines now i ms_policy ms_price ds).lines
  check_lines-AreMadeOf now i ms_policy ms_price [] hc hs = tt
  check_lines-AreMadeOf now i ms_policy ms_price (d ∷ ds) hc hs =
      let x = with_found (now i) d (find_policy d ms_policy) (find_price d ms_price) in
      pushed x (check_lines now (suc i) ms_policy ms_price ds)
        (λ l e.
          with_found-IsMadeOf (now i) ms_policy ms_price d (find_policy d ms_policy)
            (find_price d ms_price) l refl refl e)
        (check_lines-AreMadeOf now (suc i) ms_policy ms_price ds) hc hs
    where
      pushed :
          (x : Checked T) (v : Validated T)
          → ((l : OrderLineModel T) → x ≡ made l → IsMadeOf (now i) ms_policy ms_price d l)
          → (is_empty v.client_errors ≡ true
              → is_empty v.server_errors ≡ true
              → AreMadeOf now (suc i) ms_policy ms_price ds v.lines)
          → is_empty (push_checked x v).client_errors ≡ true
          → is_empty (push_checked x v).server_errors ≡ true
          → AreMadeOf now i ms_policy ms_price (d ∷ ds) (push_checked x v).lines
      pushed (made l) v is ih hc hs = (is l refl, ih hc hs)
      pushed (client_error e) v is ih hc hs = ground (arith, hc)
      pushed (server_error e) v is ih hc hs = ground (arith, hs)

  -- If the lines of a request are accepted, there is one order line for each of them, in their
  -- order, made of a stored policy of its product and of a stored price for it, of its seller's
  -- store, that has an extra charge for each attribute that is chosen. If they are refused, at
  -- least one error is given: of the server, or else of the lines.
  pub validate_orderline-Validates :
      (now : ℕ → T) (ms_policy : List ProductPolicyModel) (ms_price : List (ProductPriceModelSet T))
      (ds : List OrderLineRsvReqDto)
      → Validates now ms_policy ms_price ds (validate_orderline now ms_policy ms_price ds)
  unfolding Validates validate_orderline
  validate_orderline-Validates now ms_policy ms_price ds =
      let v = check_lines now 0 ms_policy ms_price ds in
      elim (Bool-cases (is_empty v.server_errors)) [
        | inr hs ↦ rw hs hs
        | inl hs ↦ elim (Bool-cases (is_empty v.client_errors)) [
          | inr hc ↦ rw (hs, hc) hc
          | inl hc ↦ rw (hs, hc) (check_lines-AreMadeOf now 0 ms_policy ms_price ds hc hs)
        ]
      ]
