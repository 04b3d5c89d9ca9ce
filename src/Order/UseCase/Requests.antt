-- ===== src/Order/UseCase/Requests.antt =====
-- Return requests of a customer: `ReturnLinesReqUseCase` of
-- services/order/src/usecase/manage_order.rs.
use e_commerce.Common.{
  ℕ, ◌≡◌, refl, ap, ◌∙◌, Bool, true, false, Option, none, some, List, map, String, ◌==◌,
  if◌then◌else◌, Bool-cases, inl, inr, eqb_iff,
}
use e_commerce.Common.Chrono.{Chrono}
use e_commerce.Common.Outcome.{Outcome, returned, panicked, ◌>>=◌, Result, ok, err}
use e_commerce.Order.Line.{OrderLineModel, OrderLineIdentity}
use e_commerce.Order.Return.{
  OrderLineReturnReqDto, OrderLineReturnErrorDto, OrderReturnModel, Filtered, filter_requests,
  identity_of, id_combo, min_secs_intvl_req,
}
use e_commerce.Order.Return as Return
use e_commerce.Order.Return.Records.{AreApart}
use e_commerce.Order.Return.Limits.{Filters, filter_requests-Filters}

pub data ReturnLinesReqUcOutput : Type 0 where
  success invalid_owner permission_deny : ReturnLinesReqUcOutput
  invalid_request : List OrderLineReturnErrorDto → ReturnLinesReqUcOutput

-- What the use case calls of the repositories of orders and of returns.
pub record ReturnRepos (T E : Type 0) : Type 0 where
  pub owner_id : String → Result E ℕ
  pub fetch_lines_by_pid : String → List OrderLineIdentity → Result E (List (OrderLineModel T))
  pub fetch_by_pid : String → List OrderLineIdentity → Result E (List (OrderReturnModel T))
  pub create : String → List (OrderReturnModel T) → Result E ℕ

-- The result, and the returns that are written.
pub record Requested (T E : Type 0) : Type 0 where
  pub reply : Result E ReturnLinesReqUcOutput
  pub recorded : Option (List (OrderReturnModel T))

-- `create(..).await?`, then `Success`
abbrev pub created : {E : Type 0} → Result E ℕ → Result E ReturnLinesReqUcOutput
created (ok num) = ok success
created (err e) = err e

module _ {T E : Type 0} where
  abbrev pub answer : ReturnLinesReqUcOutput → Requested T E
  answer o = record { reply = ok o; recorded = none }

  abbrev pub failed : E → Requested T E
  failed e = record { reply = err e; recorded = none }

  abbrev pub with_filtered : ReturnRepos T E → String → Filtered T → Requested T E
  with_filtered repos oid (Return.ok modified) = record {
    reply = created (repos.create oid modified);
    recorded = some modified;
  }
  with_filtered repos oid (Return.err errors) = answer (invalid_request errors)

module _ {T E : Type 0} ⦃c : Chrono T⦄ where
  abbrev pub with_returned :
      ReturnRepos T E
      → String
      → List OrderLineReturnReqDto
      → T
      → List (OrderLineModel T)
      → Result E (List (OrderReturnModel T))
      → Outcome (Requested T E)
  with_returned repos oid data_ now o_lines (err e) = returned (failed e)
  with_returned repos oid data_ now o_lines (ok o_returned) =
      filter_requests now data_ o_lines o_returned >>= λ f. returned (with_filtered repos oid f)

  abbrev pub with_o_lines :
      ReturnRepos T E
      → String
      → List OrderLineReturnReqDto
      → T
      → Result E (List (OrderLineModel T))
      → Outcome (Requested T E)
  with_o_lines repos oid data_ now (err e) = returned (failed e)
  with_o_lines repos oid data_ now (ok o_lines) =
      with_returned repos oid data_ now o_lines
        (repos.fetch_by_pid oid (map (λ d. identity_of (id_combo d)) data_))

  abbrev pub with_owner :
      ReturnRepos T E
      → String
      → List OrderLineReturnReqDto
      → T
      → ℕ
      → Result E ℕ
      → Outcome (Requested T E)
  with_owner repos oid data_ now profile (err e) = returned (failed e)
  with_owner repos oid data_ now profile (ok o_usr_id) =
      if o_usr_id == profile
      then with_o_lines repos oid data_ now
          (repos.fetch_lines_by_pid oid (map (λ d. identity_of (id_combo d)) data_))
      else returned (answer invalid_owner)

  -- `execute` for the user `profile`, with or without the permission, at the time `now`
  unfoldable pub request_returns :
      ReturnRepos T E → String → List OrderLineReturnReqDto → T → ℕ → Bool → Outcome (Requested T E)
  request_returns repos oid data_ now profile permitted =
      if permitted
      then with_owner repos oid data_ now profile (repos.owner_id oid)
      else returned (answer permission_deny)

  -- What may be written: returns that the checks accept, for the owner of the order alone.
  abbrev pub Writes :
      ReturnRepos T E
      → String
      → List OrderLineReturnReqDto
      → T
      → ℕ
      → Bool
      → Option (List (OrderReturnModel T))
      → Type 0
  Writes repos oid data_ now profile permitted none = Unit
  Writes repos oid data_ now profile permitted (some modified) =
      (permitted ≡ true)
      × (repos.owner_id oid ≡ ok profile)
      × ((o_lines : List (OrderLineModel T)) × (o_returned : List (OrderReturnModel T))
          × (repos.fetch_lines_by_pid oid (map (λ d. identity_of (id_combo d)) data_) ≡ ok o_lines)
          × (repos.fetch_by_pid oid (map (λ d. identity_of (id_combo d)) data_) ≡ ok o_returned)
          × Filters (c.trunc_to now min_secs_intvl_req) data_ o_lines o_returned
              (returned (Return.ok modified)))

  pub Requests :
      ReturnRepos T E
      → String
      → List OrderLineReturnReqDto
      → T
      → ℕ
      → Bool
      → Outcome (Requested T E)
      → Type 0
  Requests repos oid data_ now profile permitted panicked = ⊥
  Requests repos oid data_ now profile permitted (returned r) =
      Writes repos oid data_ now profile permitted r.recorded

  filtered-Requests :
      (repos : ReturnRepos T E) (oid : String) (data_ : List OrderLineReturnReqDto) (now : T)
      (profile : ℕ) (o_lines : List (OrderLineModel T)) (o_returned : List (OrderReturnModel T))
      → repos.owner_id oid ≡ ok profile
      → repos.fetch_lines_by_pid oid (map (λ d. identity_of (id_combo d)) data_) ≡ ok o_lines
      → repos.fetch_by_pid oid (map (λ d. identity_of (id_combo d)) data_) ≡ ok o_returned
      → (f : Outcome (Filtered T))
      → Filters (c.trunc_to now min_secs_intvl_req) data_ o_lines o_returned f
      → Requests repos oid data_ now profile true (f >>= λ x. returned (with_filtered repos oid x))
  unfolding Requests
  filtered-Requests repos oid data_ now profile o_lines o_returned own ls rs panicked h = h
  filtered-Requests repos oid data_ now profile o_lines o_returned own ls rs
        (returned (Return.ok m)) h =
      (refl, own, (o_lines, o_returned, ls, rs, h))
  filtered-Requests repos oid data_ now profile o_lines o_returned own ls rs
        (returned (Return.err es)) h =
      tt

  with_returned-Requests :
      (repos : ReturnRepos T E) (oid : String) (data_ : List OrderLineReturnReqDto) (now : T)
      (profile : ℕ) (o_lines : List (OrderLineModel T)) (r : Result E (List (OrderReturnModel T)))
      → AreApart data_
      → repos.owner_id oid ≡ ok profile
      → repos.fetch_lines_by_pid oid (map (λ d. identity_of (id_combo d)) data_) ≡ ok o_lines
      → repos.fetch_by_pid oid (map (λ d. identity_of (id_combo d)) data_) ≡ r
      → Requests repos oid data_ now profile true (with_returned repos oid data_ now o_lines r)
  unfolding Requests
  with_returned-Requests repos oid data_ now profile o_lines (err e) apart own ls rs = tt
  with_returned-Requests repos oid data_ now profile o_lines (ok o_returned) apart own ls rs =
      filtered-Requests repos oid data_ now profile o_lines o_returned own ls rs
        (filter_requests now data_ o_lines o_returned)
        (filter_requests-Filters now data_ o_lines o_returned apart)

  with_o_lines-Requests :
      (repos : ReturnRepos T E) (oid : String) (data_ : List OrderLineReturnReqDto) (now : T)
      (profile : ℕ) (r : Result E (List (OrderLineModel T)))
      → AreApart data_
      → repos.owner_id oid ≡ ok profile
      → repos.fetch_lines_by_pid oid (map (λ d. identity_of (id_combo d)) data_) ≡ r
      → Requests repos oid data_ now profile true (with_o_lines repos oid data_ now r)
  unfolding Requests
  with_o_lines-Requests repos oid data_ now profile (err e) apart own ls = tt
  with_o_lines-Requests repos oid data_ now profile (ok o_lines) apart own ls =
      with_returned-Requests repos oid data_ now profile o_lines
        (repos.fetch_by_pid oid (map (λ d. identity_of (id_combo d)) data_)) apart own ls refl

  with_owner-Requests :
      (repos : ReturnRepos T E) (oid : String) (data_ : List OrderLineReturnReqDto) (now : T)
      (profile : ℕ) (r : Result E ℕ)
      → AreApart data_
      → repos.owner_id oid ≡ r
      → Requests repos oid data_ now profile true (with_owner repos oid data_ now profile r)
  unfolding Requests
  with_owner-Requests repos oid data_ now profile (err e) apart own = tt
  with_owner-Requests repos oid data_ now profile (ok usr) apart own =
      elim (Bool-cases (usr == profile)) [
        | inr e ↦ rw e tt
        | inl e ↦
            let same : usr ≡ profile = (eqb_iff usr profile).0 e in
            rw e (
              with_o_lines-Requests repos oid data_ now profile
                (repos.fetch_lines_by_pid oid (map (λ d. identity_of (id_combo d)) data_)) apart
                (own ∙ ap ok same) refl)
      ]

  -- Return requests that name no line twice never panic. Returns are written for a user with the
  -- permission who owns the order alone, and only as the checks of the requests accept them,
  -- against the lines and the returns that the repositories have for the lines requested.
  pub request_returns-Requests :
      (repos : ReturnRepos T E) (oid : String) (data_ : List OrderLineReturnReqDto) (now : T)
      (profile : ℕ) (permitted : Bool)
      → AreApart data_
      → Requests repos oid data_ now profile permitted
          (request_returns repos oid data_ now profile permitted)
  unfolding Requests request_returns
  request_returns-Requests repos oid data_ now profile false apart = tt
  request_returns-Requests repos oid data_ now profile true apart =
      with_owner-Requests repos oid data_ now profile (repos.owner_id oid) apart refl
