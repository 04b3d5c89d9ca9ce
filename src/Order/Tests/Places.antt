-- ===== src/Order/Tests/Places.antt =====
-- A run of an order that is placed, from the request to the stock.
use mathlib.Core.Path.{subst}
use e_commerce.Common.{ℕ, ◌*◌, ◌≡◌, [], ◌∷◌, List, arith}
use e_commerce.Common.Chrono.{Millis, millis_chrono}
use e_commerce.Common.Currency.{usd, twd}
use e_commerce.Common.Outcome.{Result, ok, err}
use e_commerce.Contact.Tests.{ascii, payer}
use e_commerce.Order.Tests.Creation.{price, request, policy}
use e_commerce.Order.Tests.Quota.{claim}
use e_commerce.Order.Tests.Shipping.{recipient}
use e_commerce.Order.Tests.Stock.{store}
use e_commerce.Order.Price.Edit.{AppError}
use e_commerce.Order.Stock.Store.{StoreStockModel}
use e_commerce.Order.Stock.Level.Reserve.{AllSound}
use e_commerce.Order.UseCase.Place.{OrderCreateReqData, OrderRepos, place}
use e_commerce.Order.UseCase.Place.Reserves.{Reserves, place-Reserves}
use e_commerce.Payment.Tests.Mills.{Mills, mills_decimal}

abbrev order_req : OrderCreateReqData
order_req = record {
  order_lines = request 4 ∷ [];
  currency = twd;
  billing = payer;
  shipping = recipient;
}

abbrev shop : OrderRepos Millis Mills
shop = record {
  fetch_rates = λ names. ok (record {
    base = usd;
    exchange_rates = record { name = usd; rate = 1000 } ∷ record { name = twd; rate = 32_000 } ∷ [];
  });
  fetch_policies = λ pids. ok (policy ∷ []);
  fetch_prices = λ pids. ok (record { store_id = 7; currency = usd; items = price ∷ [] } ∷ []);
  fetch_with_lock = λ oid keys. ok (store ∷ []);
  save_release = λ ss ls. ok tt;
  save_contact = λ oid b s. ok tt;
}

abbrev clock : ℕ → Millis
clock i = 8_000 * i

loaded-AllSound :
    (ks : List (ℕ × ℕ)) (ss : List (StoreStockModel Millis))
    → shop.fetch_with_lock "a1" ks ≡ ok ss
    → AllSound "a1" ss
loaded-AllSound ks ss h =
    subst
      (λ (r : Result AppError (List (StoreStockModel Millis))). elim r [
        | ok x ↦ AllSound "a1" x
        | err e ↦ Unit
      ])
      h (ground arith)

place-Reserves_example :
    Reserves ascii shop claim "a1" clock 9_000 order_req 7 3
      (place ascii shop claim "a1" clock 9_000 order_req)
place-Reserves_example =
    place-Reserves ascii shop claim "a1" clock 9_000 order_req 7 3 (omega arith) (ground arith)
      loaded-AllSound
