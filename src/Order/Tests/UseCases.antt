-- ===== src/Order/Tests/UseCases.antt =====
-- Runs of the use cases of orders: the witnesses of their theorems.
use e_commerce.Common.{ℕ, ◌*◌, true, [], ◌∷◌, String, arith}
use e_commerce.Common.Chrono.{Millis, millis_chrono}
use e_commerce.Common.Currency.{usd}
use e_commerce.Common.Outcome.{ok}
use e_commerce.Order.Tests.{line}
use e_commerce.Order.Tests.Creation.{price, request, policy}
use e_commerce.Order.Tests.Stock.{store}
use e_commerce.Order.Tests.Requests.{return_req}
use e_commerce.Order.Price.Find.{ProductPriceModelSet}
use e_commerce.Order.Stock.Level.Reserve.{AllSound}
use e_commerce.Order.UseCase.Validate.{Validates, validate_orderline, validate_orderline-Validates}
use e_commerce.Order.UseCase.Discard.{Discards, read_oline_set_cb, read_oline_set_cb-Discards}
use e_commerce.Order.UseCase.Requests.{
  ReturnRepos, Requests, request_returns, request_returns-Requests,
}

abbrev prices : ProductPriceModelSet Millis
prices = record { store_id = 7; currency = usd; items = price ∷ [] }

abbrev clock : ℕ → Millis
clock i = 8_000 * i

validate_orderline-Validates_example :
    Validates clock
      (policy ∷ [])
      (prices ∷ [])
      (request 4 ∷ request 5 ∷ [])
      (validate_orderline clock (policy ∷ []) (prices ∷ []) (request 4 ∷ request 5 ∷ []))
validate_orderline-Validates_example =
    validate_orderline-Validates clock (policy ∷ []) (prices ∷ []) (request 4 ∷ request 5 ∷ [])

store-AllSound : AllSound "a1" (store ∷ [])
store-AllSound = ground arith

-- Of 5 pieces, 3 are paid; the other line is paid.
read_oline_set_cb-Discards_example :
    Discards "a1" 7 3
      (line 3 5 3 ∷ line 4 2 2 ∷ [])
      (store ∷ [])
      (read_oline_set_cb (line 3 5 3 ∷ line 4 2 2 ∷ []) (store ∷ []))
read_oline_set_cb-Discards_example =
    read_oline_set_cb-Discards "a1" 7 3 (line 3 5 3 ∷ line 4 2 2 ∷ []) (store ∷ []) (ground arith)
      store-AllSound

abbrev repos : ReturnRepos Millis String
repos = record {
  owner_id = λ oid. ok 129;
  fetch_lines_by_pid = λ oid pids. ok (line 3 5 0 ∷ line 4 2 0 ∷ []);
  fetch_by_pid = λ oid pids. ok [];
  create = λ oid rs. ok 2;
}

request_returns-Requests_example :
    Requests repos "a1"
      (return_req 3 2 ∷ return_req 4 1 ∷ [])
      20_500
      129
      true
      (request_returns repos "a1" (return_req 3 2 ∷ return_req 4 1 ∷ []) 20_500 129 true)
request_returns-Requests_example =
    request_returns-Requests repos "a1" (return_req 3 2 ∷ return_req 4 1 ∷ []) 20_500 129 true
      (ground arith)
