-- ===== src/Order/Tests/Prices.antt =====
-- A run of an edit of the prices of a store.
use e_commerce.Common.{ℕ, [], ◌∷◌}
use e_commerce.Common.Chrono.{Millis}
use e_commerce.Common.Currency.{usd, twd}
use e_commerce.Common.Int.{pos}
use e_commerce.Order.Price.{str}
use e_commerce.Order.Price.Find.{ProductPriceModelSet}
use e_commerce.Order.Price.Edit.{ProductPriceEditDto}
use e_commerce.Order.Price.Edit.Set.{update}
use e_commerce.Order.Price.Edit.Prices.{Prices, update-Prices}
use e_commerce.Order.Tests.Creation.{price}

abbrev prices : ProductPriceModelSet Millis
prices = record { store_id = 7; currency = usd; items = price ∷ [] }

abbrev edit : ℕ → ProductPriceEditDto Millis
edit pid = record {
  price = 120;
  start_after = 5_000;
  end_before = 700_000;
  product_id = pid;
  attributes = record {
    extra_charge = record { label_id = "color"; value = str "blue"; price = pos 9 } ∷ [];
    last_update = 5_000;
  };
}

-- The price of the product 3 is edited, and one of the product 4 is added.
update-Prices_example :
    Prices prices (edit 3 ∷ []) (edit 4 ∷ []) twd (update prices (edit 3 ∷ []) (edit 4 ∷ []) twd)
update-Prices_example = update-Prices prices (edit 3 ∷ []) (edit 4 ∷ []) twd
