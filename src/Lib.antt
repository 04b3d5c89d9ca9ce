-- ===== src/Lib.antt =====
-- Verification of the order and payment services of the e-commerce backend, written in Rust.
--
-- The order service (services/order) keeps the stock of the stores, the policies of their products,
-- the carts of the customers, and orders with their lines. Creating an order reserves stock; a line
-- that is not paid in time gives its stock back; the payment service reports payments, which raise
-- the paid quantity of the lines; a customer may return what is under warranty. The payment service
-- (services/payment) charges order lines, and resolves the refunds of returned lines: a merchant
-- approves or rejects pieces, which are settled against the charged line and the refund line.
--
-- Which file models what:
--   Common: native numbers with the tests that the code uses, `u32` arithmetic with its wrap
--     (Common/Word), runs that may panic and `Result` (Common/Outcome), dates (Common/Chrono),
--     iterators on lists (Common/Lists), signed numbers (Common/Int), bits of words (Common/Bits),
--     currencies (Common/Currency, of services/common/rust/src/api/dto.rs), decimals
--     (Common/Decimal: what is used of rust_decimal), texts (Common/Text: what is used of the
--     classes of characters and of the pattern of mail addresses)
--   Contact: services/common/rust/src/model/order.rs. Contact: ContactModel; Contact/Address:
--     PhyAddrModel; Contact/Billing: BillingModel; Contact/Accepts: who is accepted
--   Order/Dto, Order/Line: the data of services/order/src/model/order.rs and the DTOs
--   Order/Line/Payment: OrderLineModel::update_payments, num_reserved, unpaid_lines, and the stock
--     that a line gives back; Order/Line/Payment/Retry: messages that arrive again
--   Order/Return: OrderReturnModel::filter_requests; Order/Return/Records: what it records,
--     Order/Return/Limits: how it ends, Order/Return/Repeat: several requests for one line
--   Order/Cart, Order/Cart/Update: CartModel::update, of services/order/src/model/cart.rs
--   Order/Policy: ProductPolicyModelSet::validate and update, of
--     services/order/src/model/product_policy.rs; Order/Policy/Limits: the hard limits,
--     Order/Policy/Update: which item of a request counts
--   Order/Price: ProductPriceModel of services/order/src/model/product_price.rs, with the texts of its
--     keys, and OrderLinePriceModel::finalize_price; Order/Price/Charge: what a price is made of;
--     Order/Price/Find: which price a request is for; Order/Price/Edit: edits of one price, with its
--     extra charges (Edit/Charges), and of the prices of a store (Edit/Set), in turn (Edit/Turns)
--     and as a whole (Edit/Prices)
--   Order/Currency: OrderCurrencyModel of services/order/src/model/currency.rs; Order/Replica:
--     OrderLineModelSet::replica_paym_dto; Order/Shipping: ShippingModel of
--     services/order/src/model/order.rs; Order/Auth: AppAuthedClaim of services/order/src/auth.rs
--   Order/Create: OrderLineModel::try_from, the sequence numbers of lines and the search for
--     repeated lines; Order/Create/Limits, Order/Create/Seqs, Order/Create/Duplicates: what they
--     guarantee
--   Order/Stock: services/order/src/model/stock_level.rs. Order/Stock/Quantity: one item.
--     Order/Stock/Store: one store, with its sums (Store/Sums), reservation (Store/Reserve),
--     returns (Store/Return), and both in turn (Store/RoundTrip). Order/Stock/Level: all stores,
--     with edits (Level/Update), sorting by expiry (Level/Sort), orders (Level/Reserve) and their
--     returns (Level/Return)
--   Order/UseCase: services/order/src/usecase/manage_order.rs. UseCase/Quota:
--     CreateOrderUseCase::validate_quota; UseCase/Validate: CreateOrderUseCase::validate_orderline;
--     UseCase/Place: CreateOrderUseCase::execute, with what is checked before stock is reserved
--     (Place/Prepare), and what is reserved (Place/Reserves), on StockLvlInMemRepo::try_reserve of
--     services/order/src/repository/in_mem/stock_level.rs; UseCase/Pay: OrderPaymentUpdateUseCase,
--     on OrderInMemRepo::update_lines_payment of services/order/src/repository/in_mem/order.rs;
--     UseCase/Discard: OrderDiscardUnpaidItemsUseCase for one order; UseCase/Requests:
--     ReturnLinesReqUseCase
--   Payment/Amount: PayLineAmountModel of services/payment/src/model/mod.rs; Payment/Auth:
--     AppAuthedClaim of services/payment/src/auth/jwt.rs
--   Payment/OrderReplica: the copy of an order, services/payment/src/model/order_replica.rs; its
--     currencies (OrderReplica/Currencies) and what is accepted (OrderReplica/Replicates).
--     OrderReplica/Handover: the two services together, from the order service's copy to what the
--     payment service makes of it, with the rates (Handover/Rates) and the whole order
--     (Handover/Taken)
--   Payment/Charge: services/payment/src/model/charge.rs. Payment/Charge/Line:
--     ChargeLineBuyerModel; Payment/Charge/RefundMap: ChargeRefundMap::merge, with its bounds
--     (RefundMap/Bounds); Payment/Charge/Token: ChargeToken with its bit fields, how they are packed
--     (Token/Pack), read (Token/Extract) and found again (Token/RoundTrip); Payment/Charge/State:
--     BuyerPayInState, ChargeBuyerMetaModel, and the states of a Stripe session, of
--     services/payment/src/model/external_processor.rs; Payment/Charge/Create:
--     ChargeBuyerModel::try_from, with its limits (Create/Limits), and which charge it makes
--     (Create/Exact)
--   Payment/Charge/Request: ChargeCreateUseCase of services/payment/src/usecase/create_charge.rs,
--     step by step (Request/Steps), who may ask (Request/Access), and what it does in which order
--     (Request/Trace)
--   Payment/Charge/Refresh: ChargeStatusRefreshUseCase of
--     services/payment/src/usecase/refresh_charge_status.rs; later versions of a charge
--     (Refresh/Later), the message to the order service (Refresh/Sync), one refresh (Refresh/Steps),
--     the life of a charge (Refresh/Life), and when it is completed (Refresh/Liveness)
--   Payment/Refund: services/payment/src/model/refund.rs. Payment/Refund/Reject: rejected pieces by
--     reason; Payment/Refund/Resolve: RefundLineReqResolutionModel::to_vec, with its bounds
--     (Resolve/Bounds); Payment/Refund/Line: OLineRefundModel and OrderRefundModel, with theirs
--     (Line/Bounds) and what a validation shows (Line/Validate)
--   Contact/Tests, Order/Tests, Payment/Tests: runs at concrete inputs
--
-- How code is modelled. A method that changes its object returns the object afterwards, with its
-- result. An `assert!` or `unwrap` that fails is the outcome `panicked`. Unsigned numbers are
-- native numbers, and `+`, `-`, `*` on `u32` wrap at 2 ^ 32 as in a release build; the theorems say
-- where no wrap happens. Loops are recursions on lists; two have fuel: the text of a number, 10
-- digits, which is enough for an `i32` or a `u32`, and the loop over the bits of a field, its number of bits,
-- of which each turn takes one at least. A hash map is the list of its entries, or a record where
-- its keys are fixed. Instants are a type `T` with the operations of chrono that the code uses, and
-- decimals a type `D` with those of rust_decimal; nothing is assumed of either but what a theorem
-- names. Decimal arithmetic that leaves the range, where the library panics, is not modelled. The
-- clock is an argument, once where an order is copied, whose lines are each compared with a reading
-- of their own in the code; cutting an instant to seconds, which the code unwraps, is taken to
-- succeed. The repository, the processor of payments and the broker of messages that
-- a use case calls are a record of functions; what it writes and sends is part of its result. The
-- request of a charge gives the list of its actions in their order, with its reply.
--
-- Not modelled: the texts of error messages, but for those of edits of prices; web and RPC
-- handlers, repositories, and the use cases that call them, but for the request and the refresh of
-- a charge, the creation of an order, its payments, the discard of unpaid lines and return requests;
-- of the in-memory repositories only how stock is reserved and payments are written; the check of
-- exchange rates before they are stored; how the tokens of users are validated; the processors of
-- payments; the merchants, the payouts and the end of refunds; and the services in other languages
-- (services/media, services/product, services/store, services/user_management).
pub mod Common
pub mod Contact
pub mod Order
pub mod Payment
