-- ===== src/Order/UseCase/Place/Reserves.antt =====
-- What an order that is placed reserves: `CreateOrderUseCase::execute` of
-- services/order/src/usecase/manage_order.rs.
use e_commerce.Common.{
  ap, is_empty, ℕ, ◌+◌, ◌≤◌, ◌^◌, ◌≡◌, refl, Option, none, some, List, [], ◌∷◌, map, String, length,
  All, sum_of, arith,
}
use e_commerce.Common.Chrono.{Chrono}
use e_commerce.Common.Decimal.{Decimal}
use e_commerce.Common.Outcome.{
  Outcome, returned, panicked, ◌>>=◌, Result, ok, err, ◌>>?◌, IfOk, IfOk-bind, keep_ok,
}
use e_commerce.Common.Text.{Texts}
use e_commerce.Order.Auth.{AppAuthedClaim}
use e_commerce.Order.Dto.{OrderLineCreateErrorDto}
use e_commerce.Order.Line.{OrderLineModel, store_id, product_id}
use e_commerce.Order.Price.Edit.{AppError}
use e_commerce.Order.Replica.{line_of}
use e_commerce.Order.Stock.Store.{StoreStockModel}
use e_commerce.Order.Stock.Level.{try_reserve}
use e_commerce.Order.Stock.Level.Reserve.{
  AllSound, booked_at, wanted, HasQuantity, BooksAll, try_reserve-BooksAll,
}
use e_commerce.Order.UseCase.Quota.{CreateOrderError}
use e_commerce.Order.UseCase.Place.{
  OrderCreateReqData, OrderCreateRespOkDto, OrderRepos, Prepared, Placed, of_server, resp_of,
  finish, with_reserved, with_stock, with_prepared, prepare, place,
}
use e_commerce.Order.UseCase.Place.Prepare.{
  IsWanted, IsPrepared, Prepares, prepare-Prepares, AreOrdered-HasQuantity,
}
use e_commerce.Payment.OrderReplica.{OrderLinePayDto}
use e_commerce.Payment.OrderReplica.Currencies.{Matches, keep_ok-Matches}

module _ {T D : Type 0} ⦃c : Chrono T⦄ ⦃d : Decimal D⦄ (lib : Texts) (repos : OrderRepos T D)
    (claim : AppAuthedClaim) (oid : String) (clock : ℕ → T) (now : T) (req : OrderCreateReqData)
    (store pid : ℕ) where
  -- the keys of the stock of an order
  abbrev stock_keys : List (OrderLineModel T) → List (ℕ × ℕ)
  stock_keys = map (λ l. (store_id l.id_, product_id l.id_))

  -- A reply without an error: the stock and the contacts are saved, and there is a copy of each line.
  abbrev pub Replies : Prepared T D → List (StoreStockModel T) → OrderCreateRespOkDto T → Type 0
  Replies p ss resp =
      (repos.save_release ss p.lines ≡ ok tt)
      × (repos.save_contact oid p.billing p.shipping ≡ ok tt)
      × (resp.order_id ≡ oid)
      × (resp.usr_id ≡ claim.profile)
      × Matches (λ l x. line_of p.currency l ≡ ok x) p.lines resp.reserved_lines

  -- What is written: nothing, and then there is an error; or stock, with all that the order asks for.
  abbrev pub Writes : Placed T → Option (List (StoreStockModel T)) → Type 0
  Writes r none = (e : CreateOrderError) × (r.reply ≡ err e)
  Writes r (some ss') =
      (p : Prepared T D) × (ss : List (StoreStockModel T)) × IsPrepared lib repos claim clock req p
      × (repos.fetch_with_lock oid (stock_keys p.lines) ≡ ok ss)
      × AllSound oid ss'
      × (booked_at store pid ss' ≡ booked_at store pid ss + sum_of (wanted store pid) p.lines)
      × IfOk (Replies p ss') r.reply

  pub Reserves : Outcome (Placed T) → Type 0
  Reserves panicked = ⊥
  Reserves (returned r) = Writes r r.stock

  unit-ok : (r : Result AppError (Unit {0})) (u : Unit {0}) → of_server r ≡ ok u → r ≡ ok tt
  unit-ok (ok u) v h = refl
  unit-ok (err e) v h = ground (arith, h)

  resp_of-Replies :
      (p : Prepared T D) (ss : List (StoreStockModel T))
      → repos.save_release ss p.lines ≡ ok tt
      → repos.save_contact oid p.billing p.shipping ≡ ok tt
      → (xs : List OrderLinePayDto) (es : List AppError)
      → (es ≡ [] → Matches (λ l x. line_of p.currency l ≡ ok x) p.lines xs)
      → IfOk (Replies p ss) (resp_of oid claim.profile now p.currency (xs, es))
  resp_of-Replies p ss saved contact xs [] m = (saved, contact, refl, refl, m refl)
  resp_of-Replies p ss saved contact xs (e ∷ es) m = tt

  finish-Replies :
      (p : Prepared T D) (ss : List (StoreStockModel T))
      → IfOk
          (Replies p ss)
          (of_server (repos.save_release ss p.lines) >>? λ u. finish repos oid claim.profile now p)
  unfolding finish
  finish-Replies p ss =
      IfOk-bind (Replies p ss) (of_server (repos.save_release ss p.lines)) _ (λ u saved.
        IfOk-bind (Replies p ss) (of_server (repos.save_contact oid p.billing p.shipping)) _
          (λ v contact.
            resp_of-Replies p ss (unit-ok _ u saved) (unit-ok _ v contact)
              (keep_ok (line_of p.currency) p.lines).0 (keep_ok (line_of p.currency) p.lines).1
              (λ none_left. keep_ok-Matches (line_of p.currency) p.lines (ap is_empty none_left))))

  with_stock-Reserves :
      (p : Prepared T D) (r : Result AppError (List (StoreStockModel T)))
      → IsPrepared lib repos claim clock req p
      → All HasQuantity p.lines
      → ((ss : List (StoreStockModel T)) → r ≡ ok ss → AllSound oid ss)
      → repos.fetch_with_lock oid (stock_keys p.lines) ≡ r
      → Reserves (with_stock repos oid claim.profile now p r)
  unfolding Reserves
  with_stock-Reserves p (err e) ready q sound from = (_, refl)
  with_stock-Reserves p (ok ss) ready q sound from =
      go (try_reserve oid p.lines ss)
        (try_reserve-BooksAll oid p.lines ss store pid q (sound ss refl))
    where
      go :
          (o : Outcome (List (StoreStockModel T) × List OrderLineCreateErrorDto))
          → BooksAll oid p.lines ss store pid o
          → Reserves (o >>= λ r. returned (with_reserved repos oid claim.profile now p r))
      go panicked b = b
      go (returned (ss', e ∷ es)) b = (_, refl)
      go (returned (ss', [])) (v, n, low, high, all) =
          (p, ss, ready, from, v, ground arith, finish-Replies p ss')

  -- An order of at most 2 ^ 16 lines, each of a positive machine word of pieces, is placed with
  -- repositories whose stock is sound for it. This never panics. Stock is written only for an order
  -- within the quota, of a correct payer and recipient, whose lines are made of the stored policies
  -- and prices, up to their sequence numbers, and have an identity each; the stock is sound again,
  -- and for each store and product just what the order asks for is booked in addition. If no stock
  -- is written, the reply is an error; if the reply is none, stock and contacts were saved, and
  -- each line has its copy in the reply.
  pub place-Reserves :
      length req.order_lines ≤ 2 ^ 16
      → All IsWanted req.order_lines
      → ((ks : List (ℕ × ℕ)) (ss : List (StoreStockModel T))
          → repos.fetch_with_lock oid ks ≡ ok ss
          → AllSound oid ss)
      → Reserves (place lib repos claim oid clock now req)
  unfolding Reserves place
  place-Reserves few q sound =
      go (prepare lib repos claim clock req) (prepare-Prepares lib repos claim clock req few)
    where
      go :
          (o : Outcome (Result CreateOrderError (Prepared T D)))
          → Prepares lib repos claim clock req o
          → Reserves (o >>= λ p. with_prepared repos oid claim.profile now p)
      go panicked h = h
      go (returned (err e)) h = (e, refl)
      go (returned (ok p)) h =
          let (quota, billing, shipping, ordered) = h in
          with_stock-Reserves p (repos.fetch_with_lock oid (stock_keys p.lines)) h
            (AreOrdered-HasQuantity repos clock req p.lines ordered q) (sound (stock_keys p.lines))
            refl
