-- ===== src/Order/UseCase/Place/Prepare.antt =====
-- What has been checked before stock is reserved: the first part of `CreateOrderUseCase::execute`
-- of services/order/src/usecase/manage_order.rs.
use mathlib.Core.Path.{subst}
use e_commerce.Common.{
  ℕ, suc, ◌<◌, ◌≤◌, ◌^◌, ◌≡◌, refl, sym, ap, List, [], ◌∷◌, map, length, All, arith, u32_mod, true,
}
use e_commerce.Common.Chrono.{Chrono}
use e_commerce.Common.Outcome.{
  Outcome, returned, panicked, ◌>>=◌, Result, ok, err, ◌>>?◌, IfOk, IfOk-bind,
}
use e_commerce.Common.Text.{Texts}
use e_commerce.Contact.Billing.{BillingModel, BillingErrorDto, billing_try_from}
use e_commerce.Contact.Accepts.{AcceptsBilling, billing_try_from-Accepts}
use e_commerce.Order.Auth.{AppAuthedClaim}
use e_commerce.Order.Create.{OlineDupError, try_from_inner}
use e_commerce.Order.Create.Seqs.{AreDistinct, unnumbered}
use e_commerce.Order.Create.Duplicates.{Makes, try_from_inner-Makes}
use e_commerce.Order.Line.{OrderLineModel}
use e_commerce.Order.Policy.{ProductPolicyModel}
use e_commerce.Order.Price.{OrderLineRsvReqDto}
use e_commerce.Order.Price.Edit.{AppError}
use e_commerce.Order.Price.Find.{ProductPriceModelSet}
use e_commerce.Order.Shipping.{
  ShippingModel, ShippingErrorDto, shipping_try_from, AcceptsShipping, shipping_try_from-Accepts,
}
use e_commerce.Order.Stock.Level.Reserve.{HasQuantity}
use e_commerce.Order.UseCase.Quota.{
  CreateOrderError, validate_quota, IsWithinQuota, Quotas, validate_quota-Quotas,
}
use e_commerce.Order.UseCase.Validate.{
  ValidateError, server, req_content, AreMadeOf, Validates, validate_orderline,
  validate_orderline-Validates,
}
use e_commerce.Order.UseCase.Place.{
  OrderCreateReqData, OrderRepos, Prepared, of_servers, of_lines, handle_toplvl_error, metadata_of,
  validate_metadata, loaded, load_product_properties, snapshot_currencies, order_of, with_quota,
  prepare,
}

-- The requested quantity is a positive machine word.
abbrev pub IsWanted : OrderLineRsvReqDto → Type 0
IsWanted d = (0 < d.quantity) × (d.quantity < u32_mod)

loaded-ok :
    {A B : Type 0} (r : Result AppError A) (s : Result AppError B) (x : A × B)
    → loaded r s ≡ ok x
    → (r ≡ ok x.0) × (s ≡ ok x.1)
loaded-ok (ok a) (ok b) x h = ground (arith, h)
loaded-ok (err e) (ok b) x h = ground (arith, h)
loaded-ok (ok a) (err e) x h = ground (arith, h)
loaded-ok (err e) (err e') x h = ground (arith, h)

of_lines-ok : {A : Type 0} (r : Result ValidateError A) (a : A) → of_lines r ≡ ok a → r ≡ ok a
of_lines-ok (ok b) a h = ground (arith, h)
of_lines-ok (err (server es)) a h = ground (arith, h)
of_lines-ok (err (req_content es)) a h = ground (arith, h)

toplvl-ok :
    {A : Type 0} (r : Result (List OlineDupError) A) (a : A)
    → handle_toplvl_error r ≡ ok a
    → r ≡ ok a
toplvl-ok (ok b) a h = ground (arith, h)
toplvl-ok (err es) a h = ground (arith, h)

module _ {T : Type 0} where
  unnumbered-HasQuantity :
      (ls : List (OrderLineModel T)) → All HasQuantity ls → All HasQuantity (map unnumbered ls)
  unnumbered-HasQuantity [] q = tt
  unnumbered-HasQuantity (l ∷ ls) (q, qs) = (q, unnumbered-HasQuantity ls qs)

  HasQuantity-unnumbered :
      (ls : List (OrderLineModel T)) → All HasQuantity (map unnumbered ls) → All HasQuantity ls
  HasQuantity-unnumbered [] q = tt
  HasQuantity-unnumbered (l ∷ ls) (q, qs) = (q, HasQuantity-unnumbered ls qs)

module _ {T : Type 0} ⦃c : Chrono T⦄ (clock : ℕ → T) (pols : List ProductPolicyModel)
    (prices : List (ProductPriceModelSet T)) where
  AreMadeOf-length :
      (i : ℕ) (ds : List OrderLineRsvReqDto) (ls : List (OrderLineModel T))
      → AreMadeOf clock i pols prices ds ls
      → length ls ≡ length ds
  AreMadeOf-length i [] [] m = refl
  AreMadeOf-length i [] (l ∷ ls) m = absurd m
  AreMadeOf-length i (d ∷ ds) [] m = absurd m
  AreMadeOf-length i (d ∷ ds) (l ∷ ls) (m, ms) = ap suc (AreMadeOf-length (suc i) ds ls ms)

  AreMadeOf-HasQuantity :
      (i : ℕ) (ds : List OrderLineRsvReqDto) (ls : List (OrderLineModel T))
      → AreMadeOf clock i pols prices ds ls
      → All IsWanted ds
      → All HasQuantity ls
  AreMadeOf-HasQuantity i [] [] m q = tt
  AreMadeOf-HasQuantity i [] (l ∷ ls) m q = absurd m
  AreMadeOf-HasQuantity i (d ∷ ds) [] m q = absurd m
  AreMadeOf-HasQuantity i (d ∷ ds) (l ∷ ls)
        (
          (
            plc,
            price,
            ep,
            epr,
            among,
            for_price,
            (same_plc, same_price, limits, id, qty, payable, rsv, warranty, priced),
          ),
          ms,
        )
        (q, qs) =
      (
        subst (λ (x : _). (0 < x.reserved) × (x.reserved < u32_mod)) (sym qty) q,
        AreMadeOf-HasQuantity (suc i) ds ls ms qs,
      )

module _ {T D : Type 0} ⦃c : Chrono T⦄ (repos : OrderRepos T D) (clock : ℕ → T)
    (req : OrderCreateReqData) where
  -- The lines are made of the policies and prices that are stored, each with an identity of its own.
  abbrev pub AreOrdered : List (OrderLineModel T) → Type 0
  AreOrdered lines =
      (pols : List ProductPolicyModel) × (prices : List (ProductPriceModelSet T)) × (items : List
        (OrderLineModel T))
      × (repos.fetch_policies (map (λ d. d.product_id) req.order_lines) ≡ ok pols)
      × (repos.fetch_prices (map (λ d. (d.seller_id, d.product_id)) req.order_lines) ≡ ok prices)
      × AreMadeOf clock 0 pols prices req.order_lines items
      × AreDistinct lines
      × (map unnumbered lines ≡ map unnumbered items)

  pub AreOrdered-HasQuantity :
      (lines : List (OrderLineModel T))
      → AreOrdered lines
      → All IsWanted req.order_lines
      → All HasQuantity lines
  AreOrdered-HasQuantity lines (pols, prices, items, ep, epr, made, distinct, same) q =
      HasQuantity-unnumbered lines (
        subst (All HasQuantity) (sym same) (
          unnumbered-HasQuantity items
            (AreMadeOf-HasQuantity clock pols prices 0 req.order_lines items made q)))

  order_of-AreOrdered :
      (b : BillingModel) (s : ShippingModel)
      → length req.order_lines ≤ 2 ^ 16
      → IfOk
          (λ p. (p.billing ≡ b) × (p.shipping ≡ s) × AreOrdered p.lines)
          (order_of repos clock req (b, s))
  unfolding order_of load_product_properties Validates
  order_of-AreOrdered b s few =
      let P = λ (p : Prepared T D). (p.billing ≡ b) × (p.shipping ≡ s) × AreOrdered p.lines in
      IfOk-bind P (load_product_properties repos req.order_lines) _ (λ found e1.
        IfOk-bind P (of_servers (snapshot_currencies repos req.currency found.1)) _ (λ currency e2.
          IfOk-bind P (of_lines (validate_orderline clock found.0 found.1 req.order_lines)) _
            (λ items e3.
              IfOk-bind P (handle_toplvl_error (try_from_inner items true)) _ (λ lines e4.
                let (ep, epr) =
                  loaded-ok (repos.fetch_policies (map (λ d. d.product_id) req.order_lines))
                    (repos.fetch_prices (map (λ d. (d.seller_id, d.product_id)) req.order_lines))
                    found e1 in
                let made : AreMadeOf clock 0 found.0 found.1 req.order_lines items =
                  subst (Validates clock found.0 found.1 req.order_lines) (of_lines-ok _ items e3)
                    (validate_orderline-Validates clock found.0 found.1 req.order_lines) in
                let fits =
                  subst (λ n. n ≤ 2 ^ 16)
                    (sym (AreMadeOf-length clock found.0 found.1 0 req.order_lines items made))
                    few in
                let (no_repeats, distinct, same) =
                  subst (Makes items) (toplvl-ok _ lines e4) (try_from_inner-Makes items fits) in
                (refl, refl, (found.0, found.1, items, ep, epr, made, distinct, same))))))

-- An order that is ready: within the quota, of a correct payer and recipient, with its lines.
abbrev pub IsPrepared :
    {T D : Type 0} ⦃c : Chrono T⦄
    → Texts
    → OrderRepos T D
    → AppAuthedClaim
    → (ℕ → T)
    → OrderCreateReqData
    → Prepared T D
    → Type 0
IsPrepared lib repos claim clock req p =
    IsWithinQuota claim (length req.shipping.contact.emails) (length req.shipping.contact.phones)
      (length req.billing.contact.emails) (length req.billing.contact.phones)
      (length req.order_lines)
    × AcceptsBilling lib req.billing (ok p.billing)
    × AcceptsShipping lib req.shipping (returned (ok p.shipping))
    × AreOrdered repos clock req p.lines

module _ {T D : Type 0} ⦃c : Chrono T⦄ (lib : Texts) (repos : OrderRepos T D)
    (claim : AppAuthedClaim) (clock : ℕ → T) (req : OrderCreateReqData) where
  abbrev pub Prepares : Outcome (Result CreateOrderError (Prepared T D)) → Type 0
  Prepares panicked = ⊥
  Prepares (returned r) = IfOk (IsPrepared lib repos claim clock req) r

  pub prepare-Prepares :
      length req.order_lines ≤ 2 ^ 16 → Prepares (prepare lib repos claim clock req)
  unfolding prepare validate_metadata Quotas AcceptsShipping
  prepare-Prepares few =
      go
        (validate_quota claim (length req.shipping.contact.emails)
          (length req.shipping.contact.phones) (length req.billing.contact.emails)
          (length req.billing.contact.phones) (length req.order_lines))
        (validate_quota-Quotas claim (length req.shipping.contact.emails)
          (length req.shipping.contact.phones) (length req.billing.contact.emails)
          (length req.billing.contact.phones) (length req.order_lines))
    where
      ready :
          (o : Result CreateOrderError (Prepared T D)) (b : BillingModel) (s : ShippingModel)
          → IsWithinQuota claim
              (length req.shipping.contact.emails)
              (length req.shipping.contact.phones)
              (length req.billing.contact.emails)
              (length req.billing.contact.phones)
              (length req.order_lines)
          → AcceptsBilling lib req.billing (ok b)
          → AcceptsShipping lib req.shipping (returned (ok s))
          → IfOk (λ p. (p.billing ≡ b) × (p.shipping ≡ s) × AreOrdered repos clock req p.lines) o
          → IfOk (IsPrepared lib repos claim clock req) o
      ready (err e) b s q ab as_ h = tt
      ready (ok p) b s q ab as_ (eb, es, h) = (
        q,
        subst (λ x. AcceptsBilling lib req.billing (ok x)) (sym eb) ab,
        subst (λ x. AcceptsShipping lib req.shipping (returned (ok x))) (sym es) as_,
        h,
      )

      checked :
          (s : Outcome (Result ShippingErrorDto ShippingModel))
          (b : Result BillingErrorDto BillingModel)
          → IsWithinQuota claim
              (length req.shipping.contact.emails)
              (length req.shipping.contact.phones)
              (length req.billing.contact.emails)
              (length req.billing.contact.phones)
              (length req.order_lines)
          → AcceptsShipping lib req.shipping s
          → AcceptsBilling lib req.billing b
          → Prepares (
              s >>= (λ s'. returned (metadata_of b s')) >>= λ meta.
              returned (meta >>? order_of repos clock req))
      checked panicked b q as_ ab = as_
      checked (returned (err e)) (ok b) q as_ ab = tt
      checked (returned (err e)) (err e') q as_ ab = tt
      checked (returned (ok s)) (err e) q as_ ab = tt
      checked (returned (ok s)) (ok b) q as_ ab =
          ready (order_of repos clock req (b, s)) b s q ab as_
            (order_of-AreOrdered repos clock req b s few)

      go :
          (r : Result CreateOrderError (Unit {0}))
          → Quotas claim
              (length req.shipping.contact.emails)
              (length req.shipping.contact.phones)
              (length req.billing.contact.emails)
              (length req.billing.contact.phones)
              (length req.order_lines)
              r
          → Prepares (with_quota lib repos clock req r)
      go (err e) q = tt
      go (ok u) q =
          checked (shipping_try_from lib req.shipping) (billing_try_from lib req.billing) q
            (shipping_try_from-Accepts lib req.shipping) (billing_try_from-Accepts lib req.billing)
