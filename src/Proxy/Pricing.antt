-- ===== src/Proxy/Pricing.antt =====
-- computeActualCost of internal/proxy/pricing.go and ApplyMultiplier of internal/utils/pricing.go.
-- The products are taken in Go's 64 bits; `apply` is the floating-point product with its rounding,
-- int64(math.Round(float64(base) * float64(mult))) or the one with math.Ceil, and a parameter of
-- the model, as is the type of the multipliers.
pub mod Cost
use ainode.Prelude.{ℕ, ◌/◌, Bool, true, false, ◌||◌, String, str_eq, if◌then◌else◌}
use ainode.Prelude.Int.{
  ℤ, pos, negsuc, pos_part, neg_part, sub_ℕ, ◌+ℤ◌, ◌-ℤ◌, ◌*ℤ◌, leb_ℤ, ltb_ℤ, int64,
}

-- float32 as the code uses it: the comparison with 0, the number 1, and the rounded product.
pub record Floats : Type 1 where
  pub Float : Type 0
  pub one : Float
  pub is_at_most_zero : Float → Bool
  pub scale : ℤ → Float → Bool → ℤ

-- int64 division truncates toward 0.
abbrev pub quot_ℤ : ℤ → ℕ → ℤ
quot_ℤ a d = sub_ℕ (pos_part a / d) (neg_part a / d)

pub record UsageTokens : Type 0 where
  pub prompt : ℤ
  pub completion : ℤ
  pub cache_hit : ℤ
  pub cache_miss : ℤ

module _ (F : Floats) where
  open F use {Float}

  pub record SettlementPricing : Type 0 where
    pub input_price : ℤ
    pub output_price : ℤ
    pub cache_hit_price : ℤ
    pub cache_miss_price : ℤ
    pub multiplier : Float
    pub pricing_mode : String
    pub request_price : ℤ

  unfoldable pub apply_multiplier : ℤ → Float → Bool → ℤ
  apply_multiplier base_amount multiplier round_up =
      if leb_ℤ base_amount (pos 0) then pos 0 else F.scale base_amount multiplier round_up

  unfoldable pub multiplier_or_one : Float → Float
  multiplier_or_one m = if F.is_at_most_zero m then F.one else m

  -- The price of the tokens, before the division and the multiplier.
  unfoldable pub token_cost : SettlementPricing → UsageTokens → ℤ
  token_cost p u =
      let cached = ltb_ℤ (pos 0) u.cache_hit || ltb_ℤ (pos 0) u.cache_miss in
      let hit = if cached then u.cache_hit else pos 0 in
      let miss = if cached then u.cache_miss else pos 0 in
      let rest = int64 (int64 (u.prompt -ℤ hit) -ℤ miss) in
      let regular = if cached then (if ltb_ℤ rest (pos 0) then pos 0 else rest) else u.prompt in
      let miss_price =
        if leb_ℤ p.cache_miss_price (pos 0) then p.input_price else p.cache_miss_price in
      int64 (
        int64 (
          int64 (int64 (regular *ℤ p.input_price) +ℤ int64 (hit *ℤ p.cache_hit_price))
          +ℤ int64 (miss *ℤ miss_price))
        +ℤ int64 (u.completion *ℤ p.output_price))

  unfoldable pub base_cost : SettlementPricing → UsageTokens → String → ℤ → ℤ
  base_cost p u request_type billing_units =
      if str_eq p.pricing_mode "request" || str_eq request_type "image_generation"
      then int64 (p.request_price *ℤ (if leb_ℤ billing_units (pos 0) then pos 1 else billing_units))
      else quot_ℤ (token_cost p u) 1000000

  unfoldable pub compute_actual_cost : SettlementPricing → UsageTokens → String → ℤ → ℤ
  compute_actual_cost p u request_type billing_units =
      apply_multiplier (base_cost p u request_type billing_units) (multiplier_or_one p.multiplier)
        false
