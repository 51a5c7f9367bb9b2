-- ===== src/Proxy/RoundTrip.antt =====
-- FallbackTransport.RoundTrip of internal/proxy/reverse_proxy.go: the attempts on the channels. The
-- upstream, the URL parser, the provider's rewriting and its authentication are answers of the
-- environment, per attempt; the rewriting of the request itself is left out.
pub mod Attempts
use ainode.Prelude.{
  ℕ, zero, suc, ◌+◌, ◌*◌, Bool, true, false, not, ◌&&◌, ◌||◌, Option, none, some, List, [], ◌∷◌,
  ◌++◌, String, str_eq, if◌then◌else◌, ltb, leb, ◌==◌, Result, ok, err,
}
use ainode.Prelude.Int.{ℤ}
use ainode.Provider.{ProviderCapabilities, no_capabilities, Registry}
use ainode.Channel.Breaker.{mark_channel_failed, mark_channel_succeeded}
use ainode.Channel.Manager.{
  Channel, Manager, ManagerError, get_next_channel_excluding,
  get_next_channel_for_capabilities_excluding,
}

-- What the upstream answers: an error of the transport, or a status code.
pub data Answer : Type 0 where
  no_response : Answer
  response : ℕ → Answer

-- What a call without a usable response ends with. `upstream_failed (response s)` is the response
-- of the last attempt, which the code returns, its body closed, after the last retry.
pub data RoundTripError : Type 0 where
  cancelled no_available_channels rewrite_failed auth_failed invalid_base_url : RoundTripError
  upstream_failed : Answer → RoundTripError

-- The request, and what happens in the i-th attempt.
pub record RoundTripEnv : Type 0 where
  pub registry : Registry
  pub model_name : String
  pub request_type : String
  pub is_cancelled : ℕ → Bool
  pub clock : ℕ → ℕ
  pub rewrites : ℕ → Channel → Bool
  pub base_url_is_valid : ℕ → Channel → Bool
  pub authenticates : ℕ → Channel → Bool
  pub upstream : ℕ → Channel → Answer

-- The loop's variables: `last` is what (resp, err) hold, and `log` the requests sent.
pub record Attempt : Type 0 where
  pub manager : Manager
  pub attempted : List ℤ
  pub last : RoundTripError
  pub waits : List ℕ
  pub log : List (Channel × Answer)

-- `err != nil || status == 429 || status >= 500`
abbrev pub is_failure : Answer → Bool
is_failure no_response = true
is_failure (response status) = (status == 429) || leb 500 status

unfoldable pub required_capabilities : String → ProviderCapabilities
required_capabilities request_type =
    if str_eq request_type "image_generation"
    then record no_capabilities { image = true }
    else if str_eq request_type "video_generation"
    then record no_capabilities { video = true; async_task = true }
    else no_capabilities

unfoldable pub next_for :
    RoundTripEnv → List ℤ → ℕ → Manager → Result ManagerError Channel × Manager
unfolding required_capabilities
next_for env excluded now m =
    let caps = required_capabilities env.request_type in
    if caps.image || caps.video
    then get_next_channel_for_capabilities_excluding env.registry env.model_name caps excluded now m
    else get_next_channel_excluding env.registry env.model_name excluded now m

abbrev retry_any :
    RoundTripEnv → ℕ → Result ManagerError Channel × Manager → Result ManagerError Channel × Manager
retry_any env now (ok ch, m) = (ok ch, m)
retry_any env now (err e, m) = next_for env [] now m

-- A channel that was not tried yet, or else any.
unfoldable pub choose : RoundTripEnv → List ℤ → ℕ → Manager → Result ManagerError Channel × Manager
choose env attempted now m = retry_any env now (next_for env attempted now m)

unfoldable pub failed_on : ℤ → ℕ → RoundTripError → Attempt → Attempt
failed_on id now e a = record a {
  attempted = id ∷ a.attempted;
  manager = record (a.manager) { breakers = mark_channel_failed id now a.manager.breakers };
  last = e;
}

abbrev pub succeeded_on : ℤ → ℕ → Attempt → Attempt
succeeded_on id now a = record a {
  manager = record (a.manager) { breakers = mark_channel_succeeded id now a.manager.breakers };
}

-- The end of one pass of the loop: return, or go on.
pub data Pass : Type 0 where
  returns : Result RoundTripError (Channel × Answer) → Attempt → Pass
  continues : Attempt → Pass

-- The pass from the moment a channel is chosen.
unfoldable pub send_to : RoundTripEnv → ℕ → Channel → Attempt → Pass
unfolding failed_on
send_to env i ch a =
    let now = env.clock i in
    let answer = env.upstream i ch in
    let sent : Attempt = record a { log = a.log ++ (ch, answer) ∷ [] } in
    if not (env.rewrites i ch)
    then returns (err rewrite_failed) a
    else if not (env.base_url_is_valid i ch)
    then continues (failed_on ch.id now invalid_base_url a)
    else if not (env.authenticates i ch)
    then returns (err auth_failed) a
    else if is_failure answer
    then continues (failed_on ch.id now (upstream_failed answer) sent)
    else returns (ok (ch, answer)) (succeeded_on ch.id now sent)

unfoldable pub on_choice : RoundTripEnv → ℕ → Attempt → Result ManagerError Channel × Manager → Pass
unfolding send_to
on_choice env i a (err e, m) = returns (err no_available_channels) (record a { manager = m })
on_choice env i a (ok ch, m) = send_to env i ch (record a { manager = m })

-- retryBackoff in milliseconds: 200 before the second attempt, doubled up to 2000.
abbrev pub next_backoff : ℕ → ℕ
next_backoff b = if ltb 2000 (b * 2) then 2000 else b * 2

abbrev pub waited : ℕ → ℕ → Attempt → Attempt
waited zero backoff a = a
waited (suc i) backoff a = record a { waits = a.waits ++ backoff ∷ [] }

abbrev pub backoff_after : ℕ → ℕ → ℕ
backoff_after zero backoff = backoff
backoff_after (suc i) backoff = next_backoff backoff

abbrev pub is_cancelled_at : RoundTripEnv → ℕ → Bool
is_cancelled_at env zero = false
is_cancelled_at env (suc i) = env.is_cancelled (suc i)

-- One pass of the loop body.
unfoldable pub attempt : RoundTripEnv → ℕ → ℕ → Attempt → Pass
unfolding choose on_choice
attempt env i backoff a =
    if is_cancelled_at env i
    then returns (err cancelled) a
    else (let a' = waited i backoff a in
        on_choice env i a' (choose env a'.attempted (env.clock i) a'.manager))

abbrev pub after_pass :
    Pass
    → (Attempt → Result RoundTripError (Channel × Answer) × Attempt)
    → Result RoundTripError (Channel × Answer) × Attempt
after_pass (returns r a) go_on = (r, a)
after_pass (continues a) go_on = go_on a

-- The passes i, i + 1, ... of which `left` remain.
unfoldable pub attempts :
    RoundTripEnv → ℕ → ℕ → ℕ → Attempt → Result RoundTripError (Channel × Answer) × Attempt
unfolding attempt
attempts env zero i backoff a = (err a.last, a)
attempts env (suc left) i backoff a =
    after_pass (attempt env i backoff a)
      (λ a'. attempts env left (suc i) (backoff_after i backoff) a')

abbrev pub first_backoff : ℕ
first_backoff = 200

unfoldable pub round_trip :
    RoundTripEnv → ℕ → Manager → Result RoundTripError (Channel × Answer) × Attempt
unfolding attempts
round_trip env max_retries m = attempts env (suc max_retries) 0 first_backoff (record {
  manager = m;
  attempted = [];
  last = upstream_failed no_response;
  waits = [];
  log = [];
})
