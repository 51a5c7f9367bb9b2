-- ===== src/Middleware/Auth/Estimate.antt =====
-- The advance deduction covers the price of the request.
use ainode.Prelude.{
  ℕ, ◌+◌, ◌-◌, ◌*◌, ◌/◌, ◌^◌, ◌≤◌, ◌<◌, arith, ◌≡◌, ◌≢◌, true, false, String, str_eq, eq_iff,
  if◌then◌else◌, some, ◌==◌,
}
use ainode.Prelude.Int.{ℤ, pos, ◌≤ℤ◌, eqb_ℤ}
use native.Mathlib.Nat.{mul-le-mul_right}
use ainode.Models.{Model}
use ainode.Middleware.Auth.{ParsedRequest, base_estimate, estimated_cost}
use ainode.Proxy.Pricing.{Floats, apply_multiplier, compute_actual_cost}
use ainode.Proxy.Pricing.Cost.{
  times, plus, quot_pos, token_price, usage_of, compute_actual_cost_lem,
}
use ainode.Proxy.Response.{pricing_of}

quot_mono : (a b : ℕ) → a ≤ b → a / 1000000 ≤ b / 1000000
quot_mono a b h = omega (arith, h)

usage_mono : (p q k m i o : ℕ) → p ≤ q → k ≤ m → p * i + k * o ≤ q * i + m * o
usage_mono p q k m i o h l = omega (arith, mul-le-mul_right i h, mul-le-mul_right o l)

plain_price : (i o hp mp p k : ℕ) → token_price i o hp mp p k 0 0 ≡ p * i + k * o
plain_price i o hp mp p k = rw (whole p) (omega arith)
  where
    whole : (n : ℕ) → n - 0 - 0 ≡ n
    whole n = omega arith

-- What the estimate relies on in the rounding of the products of this multiplier with the amounts
-- up to this one: rounding keeps their order, rounding up is no less than rounding, and the product
-- that is rounded up is not negative.
pub record IsMonotone (F : Floats) (m : F.Float) (largest : ℕ) : Type 0 where
  pub rounds_mono :
      (a c : ℕ) → a ≤ c → c ≤ largest → F.scale (pos a) m false ≤ℤ F.scale (pos c) m false
  pub up_above : (c : ℕ) → c ≤ largest → F.scale (pos c) m false ≤ℤ F.scale (pos c) m true
  pub up_nonneg : pos 0 ≤ℤ F.scale (pos largest) m true

module _ (F : Floats) where
  -- A model that is priced by its tokens, in numbers.
  abbrev pub token_model :
      (input output hit_price miss_price : ℕ)
      → F.Float
      → String
      → String
      → String
      → String
      → Model F
  token_model input output hit_price miss_price m name policy modality mode = record {
    model_name = name;
    input_price_cents = pos input;
    output_price_cents = pos output;
    cache_hit_price_cents = pos hit_price;
    cache_miss_price_cents = pos miss_price;
    multiplier = m;
    billing_policy = policy;
    modality = modality;
    pricing_mode = mode;
    request_price_cents = pos 0;
  }

  base_lem :
      (i o hp mp : ℕ) (m : F.Float) (name policy modality mode : String) (q : ParsedRequest)
      (prompt max : ℕ)
      → mode ≢ "request"
      → q.prompt_tokens ≡ pos prompt
      → q.max_output_tokens ≡ pos max
      → prompt * i + max * o < 2 ^ 63
      → base_estimate F (token_model i o hp mp m name policy modality mode) q
        ≡ pos ((prompt * i + max * o) / 1000000)
  unfolding base_estimate
  base_lem i o hp mp m name policy modality mode q prompt max other ep em small =
      rw
        (
          token_mode,
          ep,
          em,
          times prompt i (omega (arith, small)),
          times max o (omega (arith, small)),
          plus (prompt * i) (max * o) small,
        )
        (quot_pos F (prompt * i + max * o))
    where
      token_mode : str_eq mode "request" ≡ false
      token_mode = ground (arith, eq_iff mode "request")

  -- Rounding up what is estimated is no less than rounding what is used.
  covers :
      (a b : ℕ) (m : F.Float)
      → IsMonotone F m b
      → a ≤ b
      → (if a == 0 then pos 0 else F.scale (pos a) m false) ≤ℤ (
          let cost = apply_multiplier F (pos b) m true in
          if eqb_ℤ cost (pos 0) then pos 1 else cost)
  unfolding apply_multiplier
  covers a b m monotone h =
      let rounded = monotone.rounds_mono a b h (omega arith) in
      let above = monotone.up_above b (omega arith) in
      let nonneg = monotone.up_nonneg in ground arith

  -- For a model that is not priced per request, with prices that are not negative and a
  -- multiplier above 0, and a request that is no image generation, where the estimate does not
  -- overflow, and the products of this multiplier with the amounts up to the estimate keep their
  -- order when rounded, are no less rounded up than rounded, and the largest, rounded up, is not
  -- negative: a use of at most the estimated tokens, without cache counts, costs at most the
  -- advance deduction.
  pub estimated_cost-covers :
      (i o hp mp : ℕ) (m : F.Float) (name policy modality mode type : String) (units : ℤ)
      (q : ParsedRequest) (prompt max used_prompt used_completion : ℕ)
      → mode ≢ "request"
      → type ≢ "image_generation"
      → F.is_at_most_zero m ≡ false
      → q.prompt_tokens ≡ pos prompt
      → q.max_output_tokens ≡ pos max
      → prompt < 2 ^ 63
      → prompt * i + max * o < 2 ^ 63
      → used_prompt ≤ prompt
      → used_completion ≤ max
      → IsMonotone F m ((prompt * i + max * o) / 1000000)
      → compute_actual_cost F
          (pricing_of F (some (token_model i o hp mp m name policy modality mode)))
          (usage_of F used_prompt used_completion 0 0)
          type
          units
        ≤ℤ estimated_cost F (token_model i o hp mp m name policy modality mode) q
  unfolding estimated_cost pricing_of
  estimated_cost-covers i o hp mp m name policy modality mode type units q prompt max used_prompt
        used_completion token text above ep em small_prompt small fewer shorter monotone =
      let less = usage_mono used_prompt prompt used_completion max i o fewer shorter in
      let plain = plain_price i o hp mp used_prompt used_completion in
      rw
        (
          compute_actual_cost_lem F i o hp mp m mode type (pos 0) units used_prompt used_completion
              0 0 token text (omega (arith, fewer, small_prompt)) (omega arith)
              (omega (arith, plain, less, small)),
          plain,
          above,
          base_lem i o hp mp m name policy modality mode q prompt max token ep em small,
        )
        (covers ((used_prompt * i + used_completion * o) / 1000000)
          ((prompt * i + max * o) / 1000000) m monotone
          (quot_mono (used_prompt * i + used_completion * o) (prompt * i + max * o) less))
