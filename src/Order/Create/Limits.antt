-- ===== src/Order/Create/Limits.antt =====
-- A new order line keeps the limits of its policy, and is made of the price and the policy of its
-- product.
use e_commerce.Common.{◌≤◌, ◌<◌, ◌≡◌, ◌≢◌, ◌⊎◌, refl, none, arith}
use e_commerce.Common.Chrono.{Chrono}
use e_commerce.Common.Outcome.{Result, ok, err}
use e_commerce.Order.Line.{OrderLineModel, OrderLinePriceModel, ProdAttriPriceModel}
use e_commerce.Order.Line.Payment.{IsPayable}
use e_commerce.Order.Return.{identity_of}
use e_commerce.Order.Policy.{ProductPolicyModel}
use e_commerce.Order.Price.{
  AppErrorCode, data_corruption, exceeding_max_limit, OrderLineRsvReqDto, ProductPriceModel,
  finalize_price,
}
use e_commerce.Order.Create.{validate_id_match, validate_rsv_limit, try_from}

-- The limits of a policy; an upper limit of 0 is none.
abbrev pub IsInLimits : OrderLineRsvReqDto → ProductPolicyModel → Type 0
IsInLimits d p = (p.min_num_rsv ≤ d.quantity) × ((p.max_num_rsv ≡ 0) ⊎ (d.quantity ≤ p.max_num_rsv))

abbrev pub IsOffLimits : OrderLineRsvReqDto → ProductPolicyModel → Type 0
IsOffLimits d p =
    (d.quantity < p.min_num_rsv) ⊎ ((0 < p.max_num_rsv) × (p.max_num_rsv < d.quantity))

-- How the making of an order line ends.
abbrev pub Creates :
    {T : Type 0} ⦃c : Chrono T⦄
    → T
    → OrderLineRsvReqDto
    → ProductPolicyModel
    → ProductPriceModel T
    → Result AppErrorCode (OrderLineModel T)
    → Type 0
Creates ⦃c⦄ t d pol pr (ok m) =
    (d.product_id ≡ pol.product_id)
    × (d.product_id ≡ pr.product_id)
    × IsInLimits d pol
    × (m.id_ ≡ identity_of (d.seller_id, d.product_id, 0))
    × (m.qty ≡ record { reserved = d.quantity; paid = 0; paid_last_update = none })
    × IsPayable m
    × (m.policy.reserved_until ≡ c.add_secs t pol.auto_cancel_secs)
    × (m.policy.warranty_until ≡ c.add_hours t pol.warranty_hours)
    × (finalize_price d pr ≡ ok (m.price, m.attrs_charge))
Creates t d pol pr (err e) =
    ((e ≡ data_corruption) × ((d.product_id ≢ pol.product_id) ⊎ (d.product_id ≢ pr.product_id)))
    ⊎ ((e ≡ exceeding_max_limit) × IsOffLimits d pol)
    ⊎ (finalize_price d pr ≡ err e)

module _ {T : Type 0} ⦃c : Chrono T⦄ where
  -- A new order line is within the limits of its policy, of which an upper limit of 0 is none; it
  -- reserves the requested quantity, nothing of it is paid, and its times and its price are those
  -- of the policy and the price of its product. An error means that the policy or the price is of
  -- another product, that the quantity is off the limits, or that the price could not be
  -- calculated.
  pub try_from-Creates :
      (t : T) (d : OrderLineRsvReqDto) (pol : ProductPolicyModel) (pr : ProductPriceModel T)
      → Creates t d pol pr (try_from t d pol pr)
  unfolding try_from validate_id_match validate_rsv_limit
  try_from-Creates t d pol pr = go (finalize_price d pr) refl
    where
      go :
          (r : Result AppErrorCode (OrderLinePriceModel × ProdAttriPriceModel T))
          → finalize_price d pr ≡ r
          → Creates t d pol pr (try_from t d pol pr)
      go (ok (p, a)) h = rw h (ground (arith, h))
      go (err e) h = rw h (ground (arith, h))
