-- ===== src/Order/UseCase/Place.antt =====
-- How an order is placed: `CreateOrderUseCase::execute` of
-- services/order/src/usecase/manage_order.rs, with `StockLvlInMemRepo::try_reserve` of
-- services/order/src/repository/in_mem/stock_level.rs.
pub mod Prepare
pub mod Reserves
use e_commerce.Common.{ℕ, Option, none, some, List, [], ◌∷◌, ◌++◌, map, String, length, true}
use e_commerce.Common.Chrono.{Chrono}
use e_commerce.Common.Currency.{CurrencyDto}
use e_commerce.Common.Decimal.{Decimal}
use e_commerce.Common.Outcome.{Outcome, returned, panicked, ◌>>=◌, Result, ok, err, ◌>>?◌, keep_ok}
use e_commerce.Common.Text.{Texts}
use e_commerce.Contact.Billing.{BillingDto, BillingModel, BillingErrorDto, billing_try_from, err_of}
use e_commerce.Order.Auth.{AppAuthedClaim}
use e_commerce.Order.Create.{OlineDupError, try_from_inner}
use e_commerce.Order.Currency.{
  CurrencyModel, CurrencyModelSet, OrderCurrencyModel, currency_try_from, snapshot_dto,
}
use e_commerce.Order.Dto.{OrderLineCreateErrorDto, duplicate_lines}
use e_commerce.Order.Line.{OrderLineModel, store_id, product_id}
use e_commerce.Order.Policy.{ProductPolicyModel}
use e_commerce.Order.Price.{AppErrorCode, OrderLineRsvReqDto}
use e_commerce.Order.Price.Edit.{AppError}
use e_commerce.Order.Price.Find.{ProductPriceModelSet}
use e_commerce.Order.Replica.{line_of}
use e_commerce.Order.Shipping.{ShippingDto, ShippingModel, ShippingErrorDto, shipping_try_from}
use e_commerce.Order.Stock.Store.{StoreStockModel}
use e_commerce.Order.Stock.Level.{try_reserve}
use e_commerce.Order.UseCase.Quota.{
  OrderCreateRespErrorDto, CreateOrderError, bad_content, failed_server, default_error,
  validate_quota,
}
use e_commerce.Order.UseCase.Validate.{ValidateError, server, req_content, validate_orderline}
use e_commerce.Payment.OrderReplica.{OrderLinePayDto, OrderCurrencySnapshotDto}

-- services/order/src/api/web/dto.rs
pub record OrderCreateReqData : Type 0 where
  pub order_lines : List OrderLineRsvReqDto
  pub currency : CurrencyDto
  pub billing : BillingDto
  pub shipping : ShippingDto

-- with the instant whose timestamp is sent
pub record OrderCreateRespOkDto (T : Type 0) : Type 0 where
  pub order_id : String
  pub usr_id : ℕ
  pub time : T
  pub currency : OrderCurrencySnapshotDto
  pub reserved_lines : List OrderLinePayDto

-- What the use case calls of the repositories: rates, policies, prices, the stock of an order with
-- its lock, and how stock and contacts are saved.
pub record OrderRepos (T D : Type 0) : Type 0 where
  pub fetch_rates : List CurrencyDto → Result AppError (CurrencyModelSet D)
  pub fetch_policies : List ℕ → Result AppError (List ProductPolicyModel)
  pub fetch_prices : List (ℕ × ℕ) → Result AppError (List (ProductPriceModelSet T))
  pub fetch_with_lock : String → List (ℕ × ℕ) → Result AppError (List (StoreStockModel T))
  pub save_release : List (StoreStockModel T) → List (OrderLineModel T) → Result AppError (Unit {0})
  pub save_contact : String → BillingModel → ShippingModel → Result AppError (Unit {0})

-- What is ready before stock is reserved.
pub record Prepared (T D : Type 0) : Type 0 where
  pub billing : BillingModel
  pub shipping : ShippingModel
  pub currency : OrderCurrencyModel D
  pub lines : List (OrderLineModel T)

-- The reply, and the stock that is written.
pub record Placed (T : Type 0) : Type 0 where
  pub reply : Result CreateOrderError (OrderCreateRespOkDto T)
  pub stock : Option (List (StoreStockModel T))

-- `CreateOrderUsKsErr::Server`, with the codes of the errors
abbrev pub server_failed : List AppError → CreateOrderError
server_failed es = failed_server (map (λ e. e.code) es)

abbrev pub of_server : {A : Type 0} → Result AppError A → Result CreateOrderError A
of_server (ok a) = ok a
of_server (err e) = err (server_failed (e ∷ []))

abbrev pub of_servers : {A : Type 0} → Result (List AppError) A → Result CreateOrderError A
of_servers (ok a) = ok a
of_servers (err es) = err (server_failed es)

abbrev pub bad_lines : List OrderLineCreateErrorDto → CreateOrderError
bad_lines es = bad_content (record default_error { order_lines = some es })

-- the errors of `validate_orderline`, as they are returned
abbrev pub of_lines : {A : Type 0} → Result ValidateError A → Result CreateOrderError A
of_lines (ok a) = ok a
of_lines (err (server es)) = err (failed_server es)
of_lines (err (req_content es)) = err (bad_lines es)

-- `From<OlineDupError> for OrderLineCreateErrorDto`
abbrev pub dup_error : OlineDupError → OrderLineCreateErrorDto
dup_error e = record {
  seller_id = e.base_id.store_id;
  product_id = e.base_id.product_id;
  reason = duplicate_lines;
  attr_vals = some e.attr_vals;
  nonexist = none;
  shortage = none;
  rsv_limit = none;
}

-- `handle_toplvl_error`
abbrev pub handle_toplvl_error :
    {A : Type 0} → Result (List OlineDupError) A → Result CreateOrderError A
handle_toplvl_error (ok a) = ok a
handle_toplvl_error (err es) = err (bad_lines (map dup_error es))

abbrev pub metadata_of :
    Result BillingErrorDto BillingModel
    → Result ShippingErrorDto ShippingModel
    → Result CreateOrderError (BillingModel × ShippingModel)
metadata_of (ok billing) (ok shipping) = ok (billing, shipping)
metadata_of b s =
    err (bad_content (record default_error { billing = err_of b; shipping = err_of s }))

unfoldable pub validate_metadata :
    Texts
    → ShippingDto
    → BillingDto
    → Outcome (Result CreateOrderError (BillingModel × ShippingModel))
validate_metadata lib sh_d bl_d =
    shipping_try_from lib sh_d >>= λ s. returned (metadata_of (billing_try_from lib bl_d) s)

abbrev pub loaded :
    {A B : Type 0} → Result AppError A → Result AppError B → Result CreateOrderError (A × B)
loaded (ok a) (ok b) = ok (a, b)
loaded (err e) (ok b) = err (server_failed (e ∷ []))
loaded (ok a) (err e) = err (server_failed (e ∷ []))
loaded (err e) (err e') = err (server_failed (e ∷ e' ∷ []))

module _ {T D : Type 0} where
  unfoldable pub load_product_properties :
      OrderRepos T D
      → List OrderLineRsvReqDto
      → Result CreateOrderError (List ProductPolicyModel × List (ProductPriceModelSet T))
  load_product_properties repos data_ =
      loaded (repos.fetch_policies (map (λ d. d.product_id) data_))
        (repos.fetch_prices (map (λ d. (d.seller_id, d.product_id)) data_))

  abbrev pub with_rates :
      CurrencyDto
      → List (ProductPriceModelSet T)
      → Result AppError (CurrencyModelSet D)
      → Result (List AppError) (OrderCurrencyModel D)
  with_rates label_buyer prices (err e) = err (e ∷ [])
  with_rates label_buyer prices (ok rates) =
      currency_try_from rates label_buyer (map (λ ms. (ms.store_id, ms.currency)) prices)

  unfoldable pub snapshot_currencies :
      OrderRepos T D
      → CurrencyDto
      → List (ProductPriceModelSet T)
      → Result (List AppError) (OrderCurrencyModel D)
  snapshot_currencies repos label_buyer prices =
      with_rates label_buyer prices
        (repos.fetch_rates (map (λ ms. ms.currency) prices ++ label_buyer ∷ []))

module _ {T D : Type 0} ⦃c : Chrono T⦄ where
  -- the steps from the loading of policies and prices to the lines of the order
  unfoldable pub order_of :
      OrderRepos T D
      → (ℕ → T)
      → OrderCreateReqData
      → BillingModel × ShippingModel
      → Result CreateOrderError (Prepared T D)
  order_of repos clock req (billing, shipping) =
      load_product_properties repos req.order_lines >>? λ found.
      of_servers (snapshot_currencies repos req.currency found.1) >>? λ currency.
      of_lines (validate_orderline clock found.0 found.1 req.order_lines) >>? λ items.
      handle_toplvl_error (try_from_inner items true) >>? λ lines.
      ok (record { billing = billing; shipping = shipping; currency = currency; lines = lines })

  abbrev pub with_quota :
      Texts
      → OrderRepos T D
      → (ℕ → T)
      → OrderCreateReqData
      → Result CreateOrderError (Unit {0})
      → Outcome (Result CreateOrderError (Prepared T D))
  with_quota lib repos clock req (err e) = returned (err e)
  with_quota lib repos clock req (ok u) = validate_metadata lib req.shipping req.billing >>= λ meta.
      returned (meta >>? order_of repos clock req)

  unfoldable pub prepare :
      Texts
      → OrderRepos T D
      → AppAuthedClaim
      → (ℕ → T)
      → OrderCreateReqData
      → Outcome (Result CreateOrderError (Prepared T D))
  prepare lib repos claim clock req = with_quota lib repos clock req (
      validate_quota claim (length req.shipping.contact.emails) (length req.shipping.contact.phones)
        (length req.billing.contact.emails) (length req.billing.contact.phones)
        (length req.order_lines))

module _ {T D : Type 0} ⦃c : Chrono T⦄ ⦃d : Decimal D⦄ where
  abbrev pub resp_of :
      String
      → ℕ
      → T
      → OrderCurrencyModel D
      → List OrderLinePayDto × List AppError
      → Result CreateOrderError (OrderCreateRespOkDto T)
  resp_of oid usr_id now currency (lines, e ∷ es) = err (server_failed (e ∷ es))
  resp_of oid usr_id now currency (lines, []) = ok (record {
    order_id = oid;
    usr_id = usr_id;
    time = now;
    currency = snapshot_dto currency;
    reserved_lines = lines;
  })

  -- after the stock was saved: the contacts, then `TryFrom<OrderLineModelSet> for
  -- OrderCreateRespOkDto`
  unfoldable pub finish :
      OrderRepos T D
      → String
      → ℕ
      → T
      → Prepared T D
      → Result CreateOrderError (OrderCreateRespOkDto T)
  finish repos oid usr_id now p = of_server (repos.save_contact oid p.billing p.shipping) >>? λ u.
      resp_of oid usr_id now p.currency (keep_ok (line_of p.currency) p.lines)

  -- `try_reserve_stock_cb`, and what the repository does with its result
  abbrev pub with_reserved :
      OrderRepos T D
      → String
      → ℕ
      → T
      → Prepared T D
      → List (StoreStockModel T) × List OrderLineCreateErrorDto
      → Placed T
  with_reserved repos oid usr_id now p (ss, e ∷ es) = record {
    reply = err (bad_lines (e ∷ es));
    stock = none;
  }
  with_reserved repos oid usr_id now p (ss, []) = record {
    reply = of_server (repos.save_release ss p.lines) >>? λ u. finish repos oid usr_id now p;
    stock = some ss;
  }

  abbrev pub with_stock :
      OrderRepos T D
      → String
      → ℕ
      → T
      → Prepared T D
      → Result AppError (List (StoreStockModel T))
      → Outcome (Placed T)
  with_stock repos oid usr_id now p (err e) =
      returned (record { reply = err (server_failed (e ∷ [])); stock = none })
  with_stock repos oid usr_id now p (ok ss) =
      try_reserve oid p.lines ss >>= λ r. returned (with_reserved repos oid usr_id now p r)

  abbrev pub with_prepared :
      OrderRepos T D → String → ℕ → T → Result CreateOrderError (Prepared T D) → Outcome (Placed T)
  with_prepared repos oid usr_id now (err e) = returned (record { reply = err e; stock = none })
  with_prepared repos oid usr_id now (ok p) =
      with_stock repos oid usr_id now p
        (repos.fetch_with_lock oid (map (λ l. (store_id l.id_, product_id l.id_)) p.lines))

  -- `execute`, with the number `oid` that is generated, the readings `clock` of the clock while the
  -- lines are made, and `now` afterwards
  unfoldable pub place :
      Texts
      → OrderRepos T D
      → AppAuthedClaim
      → String
      → (ℕ → T)
      → T
      → OrderCreateReqData
      → Outcome (Placed T)
  place lib repos claim oid clock now req =
      prepare lib repos claim clock req >>= λ p. with_prepared repos oid claim.profile now p
