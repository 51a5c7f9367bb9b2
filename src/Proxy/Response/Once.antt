-- ===== src/Proxy/Response/Once.antt =====
-- A billed request ends in one bill, whatever the upstream did.
use ainode.Prelude.{
  arith, ◌≡◌, sym, subst, ◌∙◌, Bool, true, false, Option, none, List, [], ◌∷◌, ◌++◌, if◌then◌else◌,
  ◌==◌,
}
use ainode.Prelude.Int.{ℤ, pos, ◌<ℤ◌}
use ainode.Redis.{Redis}
use ainode.Billing.Request.{SettlementRequest, RequestLogRequest}
use ainode.Billing.Settlement.{World, settle, refund, refund_log}
use ainode.Billing.Settlement.Sent.{settle_sent, refund_sent}
use ainode.Models.{Model, get_model}
use ainode.Proxy.Pricing.{Floats, UsageTokens}
use ainode.Proxy.Tally.{Counts, ReaderCall, read_all, new_tally_reader}
use ainode.Proxy.Response.{
  ProxyContext, UpstreamBody, unreadable, whole, stream, Outcome, proxy_error, response,
  model_name_of, outside_transport, refund_bill, whole_usage, stream_usage, settle_bill,
  actual_cost_of, ResponseEnv, ResponseState, log_request, refund_pre_deduct, on_complete,
  complete_all, deliver_body, modify_response, handle_error, finish_request, failure_request_log,
  success_request_log, status_or,
}

-- The reader of a stream calls onComplete once, with these counts.
abbrev pub CompletesOnce : ℤ → List ReaderCall → Counts → Type 0
CompletesOnce prompt calls u = (read_all calls (new_tally_reader prompt)).calls ≡ u ∷ []

-- The counts of the one call of onComplete, where the body is a stream.
abbrev pub BodyEnds : ℤ → UpstreamBody → Type 0
BodyEnds prompt unreadable = Unit
BodyEnds prompt (whole u) = Unit
BodyEnds prompt (stream calls) = (u : Counts) × CompletesOnce prompt calls u

abbrev pub Ends : ProxyContext → Outcome → Type 0
Ends c proxy_error = Unit
Ends c (response status body) = BodyEnds c.billing.prompt_tokens body

module _ (F : Floats) (R : Redis) where
  module _ (c : ProxyContext) (m : Option (Model F)) where
    -- The bill of a refund, and that of a settlement of this usage.
    abbrev pub refunded : SettlementRequest
    refunded = refund_log R (refund_bill c) c.billing.pre_deducted_cents c.billing.deduction

    abbrev pub consumed : UsageTokens → SettlementRequest
    consumed u = settle_bill c u (actual_cost_of F c m u)

    abbrev pub body_bill :
        (b : UpstreamBody) → BodyEnds c.billing.prompt_tokens b → SettlementRequest
    body_bill unreadable e = refunded
    body_bill (whole u) e = consumed (whole_usage c.billing.prompt_tokens u)
    body_bill (stream calls) (u, e) = consumed (stream_usage u)

    -- What the request is billed: its use where a response of status 200 could be read, and
    -- nothing otherwise.
    abbrev pub final_bill : (o : Outcome) → Ends c o → SettlementRequest
    final_bill proxy_error e =
        refund_log R (refund_bill (outside_transport c)) c.billing.pre_deducted_cents
          c.billing.deduction
    final_bill (response status body) e = if status == 200 then body_bill body e else refunded

  log_world :
      (env : ResponseEnv F R) (x : RequestLogRequest) (st : ResponseState F R)
      → (log_request F R env x st).world ≡ st.world
  log_world env x st = ground arith

  module _ (env : ResponseEnv F R) (c : ProxyContext) where
    abbrev pub give_back : World R → World R
    give_back =
        refund R env.settle_env c.billing.user_id c.billing.pre_deducted_cents c.billing.deduction
          (refund_bill c)

    refund_pre_deduct_world :
        (st : ResponseState F R) → (refund_pre_deduct F R env c st).world ≡ give_back st.world
    unfolding refund_pre_deduct refund
    refund_pre_deduct_world st = ground arith

  module _ (env : ResponseEnv F R) (c : ProxyContext) where
    on_complete_world :
        (m : Option (Model F)) (b : Bool) (u : UsageTokens) (st : ResponseState F R)
        → (on_complete F R env c m b u st).world
          ≡ (settle R env.settle_env (consumed c m u) st.world).1
    unfolding on_complete
    on_complete_world m b u st =
        log_world env (success_request_log c b u (actual_cost_of F c m u))
          (record st { world = (settle R env.settle_env (consumed c m u) st.world).1 })

    module _ (st : ResponseState F R) (P : SettlementRequest → World R → Type 0)
        (fails : P
          (refunded (outside_transport c) none)
          (give_back env (outside_transport c) st.world))
        (refunds : P (refunded c none) (give_back env c st.world))
        (settles : (u : UsageTokens)
          → (let m = (get_model F env.model_row (model_name_of c) st.models).0 in
              P (consumed c m u) (settle R env.settle_env (consumed c m u) st.world).1)) where
      abbrev model : Option (Model F)
      model = (get_model F env.model_row (model_name_of c) st.models).0

      abbrev found : ResponseState F R
      found = record st { models = (get_model F env.model_row (model_name_of c) st.models).1 }

      body-cases :
          (b : UpstreamBody) (e : BodyEnds c.billing.prompt_tokens b)
          → P (body_bill c model b e) (deliver_body F R env c model b found).world
      unfolding deliver_body complete_all
      body-cases unreadable e =
          subst (P (refunded c none)) (sym (refund_pre_deduct_world env c found)) refunds
      body-cases (whole u) e =
          subst (P (consumed c model (whole_usage c.billing.prompt_tokens u)))
            (sym (on_complete_world model false (whole_usage c.billing.prompt_tokens u) found))
            (settles (whole_usage c.billing.prompt_tokens u))
      body-cases (stream calls) (u, e) = rw e (
          subst (P (consumed c model (stream_usage u)))
            (sym (on_complete_world model true (stream_usage u) found)) (settles (stream_usage u)))

      -- Every end of a request is the refund, or one settlement.
      pub finish-cases :
          (o : Outcome) (e : Ends c o)
          → P (final_bill c model o e) (finish_request F R env c o st).world
      unfolding finish_request modify_response handle_error
      finish-cases proxy_error e =
          let c' = outside_transport c in
          subst (P (refunded c' none))
            (sym (
              log_world env (failure_request_log c' "" (pos 0)) (refund_pre_deduct F R env c' st)
              ∙ refund_pre_deduct_world env c' st))
            fails
      finish-cases (response status body) e = by_status (status == 200)
        where
          failed : ResponseState F R
          failed =
              log_request F R env
                (failure_request_log c c.upstream_model_name
                  (pos (status_or F R env.translated_status status)))
                (refund_pre_deduct F R env c st)

          by_status :
              (ok_status : Bool)
              → P
                  (if ok_status then body_bill c model body e else refunded c none)
                  (if ok_status then deliver_body F R env c model body found else failed).world
          by_status true = body-cases body e
          by_status false =
              subst (P (refunded c none))
                (sym (
                  log_world env
                    (failure_request_log c c.upstream_model_name
                      (pos (status_or F R env.translated_status status)))
                    (refund_pre_deduct F R env c st)
                  ∙ refund_pre_deduct_world env c st))
                refunds

  module _ (env : ResponseEnv F R) (c : ProxyContext) (st : ResponseState F R) (o : Outcome)
      (e : Ends c o) where
    abbrev pub billed_as : SettlementRequest
    billed_as = final_bill c (get_model F env.model_row (model_name_of c) st.models).0 o e

    -- Where the advance deduction is positive, the queue takes the bill, and a stream is read to
    -- its one end: a finished request sends exactly one bill and leaves the outbox as it is,
    -- whether the transport failed, the upstream answered another status than 200, or the body
    -- was read, streamed or unreadable. The bill is that of the use for a body of status 200 that
    -- was read, and of a refund otherwise.
    pub finish_request-once :
        pos 0 <ℤ c.billing.pre_deducted_cents
        → env.settle_env.enqueue_fails ≡ false
        → ((finish_request F R env c o st).world.sent ≡ st.world.sent ++ billed_as ∷ [])
          × ((finish_request F R env c o st).world.outbox ≡ st.world.outbox)
    finish_request-once positive up =
        finish-cases env c st
          (λ bill w'. (w'.sent ≡ st.world.sent ++ bill ∷ []) × (w'.outbox ≡ st.world.outbox))
          (refund_sent R env.settle_env up c.billing.user_id c.billing.pre_deducted_cents
            c.billing.deduction (refund_bill (outside_transport c)) st.world positive)
          (refund_sent R env.settle_env up c.billing.user_id c.billing.pre_deducted_cents
            c.billing.deduction (refund_bill c) st.world positive)
          (λ u.
            settle_sent R env.settle_env up
              (consumed c (get_model F env.model_row (model_name_of c) st.models).0 u) st.world)
          o e
