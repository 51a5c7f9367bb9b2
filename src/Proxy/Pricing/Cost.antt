-- ===== src/Proxy/Pricing/Cost.antt =====
-- The price of a request against the formula of the comment above computeActualCost.
use ainode.Prelude.{
  ℕ, ◌+◌, ◌-◌, ◌*◌, ◌/◌, ◌≢◌, false, str_eq, eq_iff, ◌^◌, ◌<◌, arith, ◌≡◌, inl, inr, ◌∙◌, ap, Bool,
  ◌||◌, String, if◌then◌else◌, ◌==◌,
}
use ainode.Prelude.Int.{
  ℤ, pos, ◌+ℤ◌, ◌-ℤ◌, ◌*ℤ◌, int64, int64_of_IsInt64, leb_ℤ, ltb_ℤ, int_laws, parts_exclusive,
  ltb_ℤ-cases,
}
use ainode.Proxy.Pricing.{
  Floats, SettlementPricing, UsageTokens, token_cost, quot_ℤ, apply_multiplier, multiplier_or_one,
  base_cost, compute_actual_cost,
}

mul_pos : (a b : ℕ) → pos a *ℤ pos b ≡ pos (a * b)
unfolding ◌*ℤ◌
mul_pos a b = ground arith

add_pos : (a b : ℕ) → pos a +ℤ pos b ≡ pos (a + b)
add_pos a b = omega int_laws

int64_pos : (n : ℕ) → n < 2 ^ 63 → int64 (pos n) ≡ pos n
int64_pos n h = int64_of_IsInt64 (pos n) (omega (arith, h))

-- In 64 bits, a product or a sum of numbers is exact while it stays below 2^63.
pub times : (a b : ℕ) → a * b < 2 ^ 63 → int64 (pos a *ℤ pos b) ≡ pos (a * b)
times a b h = ap int64 (mul_pos a b) ∙ int64_pos (a * b) h

pub plus : (a b : ℕ) → a + b < 2 ^ 63 → int64 (pos a +ℤ pos b) ≡ pos (a + b)
plus a b h = ap int64 (add_pos a b) ∙ int64_pos (a + b) h

-- The sum of four products, each step wrapped.
sum_exact :
    (a b c d p q r s : ℕ)
    → a * p + b * q + c * r + d * s < 2 ^ 63
    → int64 (
        int64 (int64 (int64 (pos a *ℤ pos p) +ℤ int64 (pos b *ℤ pos q)) +ℤ int64 (pos c *ℤ pos r))
        +ℤ int64 (pos d *ℤ pos s))
      ≡ pos (a * p + b * q + c * r + d * s)
sum_exact a b c d p q r s h = simp (
  times a p (omega (arith, h)),
  times b q (omega (arith, h)),
  times c r (omega (arith, h)),
  times d s (omega (arith, h)),
  plus (a * p) (b * q) (omega (arith, h)),
  plus (a * p + b * q) (c * r) (omega (arith, h)),
  plus (a * p + b * q + c * r) (d * s) h,
)

-- What is left of the prompt beside its cached part, or none.
regular_lem :
    (prompt hit miss : ℕ)
    → prompt < 2 ^ 63
    → hit + miss < 2 ^ 63
    → (let rest = int64 (int64 (pos prompt -ℤ pos hit) -ℤ pos miss) in
        (if ltb_ℤ rest (pos 0) then pos 0 else rest) ≡ pos (prompt - hit - miss))
regular_lem prompt hit miss h k =
    let first =
      int64_of_IsInt64 (pos prompt -ℤ pos hit)
        (omega (int_laws, parts_exclusive (pos prompt -ℤ pos hit), h, k)) in
    let second = int64_of_IsInt64 (pos prompt -ℤ pos hit -ℤ pos miss) (
      omega (
        int_laws,
        parts_exclusive (pos prompt -ℤ pos hit -ℤ pos miss),
        parts_exclusive (pos prompt -ℤ pos hit),
        h,
        k,
      )) in
    simp (first, second) (cut prompt hit miss)
  where
    cut :
        (p h m : ℕ)
        → (if ltb_ℤ (pos p -ℤ pos h -ℤ pos m) (pos 0) then pos 0 else pos p -ℤ pos h -ℤ pos m)
          ≡ pos (p - h - m)
    cut p h m = elim (ltb_ℤ-cases (pos p -ℤ pos h -ℤ pos m) (pos 0)) [
      | inl (b, l) ↦ rw b (omega (int_laws, l))
      | inr (b, l) ↦ rw b (omega (int_laws, l))
    ]

-- The formula, on numbers: the cached part of the prompt at its own prices, a miss at the input
-- price where no price of a miss is set.
abbrev pub token_price : (input output hit_price miss_price prompt completion hit miss : ℕ) → ℕ
token_price input output hit_price miss_price prompt completion hit miss =
    (prompt - hit - miss) * input
    + hit * hit_price
    + miss * (if miss_price == 0 then input else miss_price)
    + completion * output

abbrev is_cached : ℕ → ℕ → Bool
is_cached hit miss = ltb_ℤ (pos 0) (pos hit) || ltb_ℤ (pos 0) (pos miss)

hit_part : (hit miss : ℕ) → (if is_cached hit miss then pos hit else pos 0) ≡ pos hit
hit_part hit miss = ground arith

miss_part : (hit miss : ℕ) → (if is_cached hit miss then pos miss else pos 0) ≡ pos miss
miss_part hit miss = ground arith

regular_part :
    (prompt hit miss : ℕ)
    → prompt < 2 ^ 63
    → hit + miss < 2 ^ 63
    → (let rest = int64 (int64 (pos prompt -ℤ pos hit) -ℤ pos miss) in
        (if is_cached hit miss then (if ltb_ℤ rest (pos 0) then pos 0 else rest) else pos prompt)
        ≡ pos (prompt - hit - miss))
regular_part prompt hit miss h k = rw (regular_lem prompt hit miss h k) (ground arith)

price_part :
    (input mp : ℕ)
    → (if leb_ℤ (pos mp) (pos 0) then pos input else pos mp) ≡ pos (if mp == 0 then input else mp)
price_part input mp = ground arith

module _ (F : Floats) where
  abbrev pub price_of :
      (input output hit_price miss_price : ℕ) → F.Float → String → ℤ → SettlementPricing F
  price_of input output hit_price miss_price m mode request_price = record {
    input_price = pos input;
    output_price = pos output;
    cache_hit_price = pos hit_price;
    cache_miss_price = pos miss_price;
    multiplier = m;
    pricing_mode = mode;
    request_price = request_price;
  }

  abbrev pub usage_of : (prompt completion hit miss : ℕ) → UsageTokens
  usage_of prompt completion hit miss = record {
    prompt = pos prompt;
    completion = pos completion;
    cache_hit = pos hit;
    cache_miss = pos miss;
  }

  -- Where counts and prices are not negative, the prompt, the sum of hits and misses, and the
  -- whole sum stay below 2^63, the sum that the code computes in 64 bits is exactly the formula
  -- of its comment: the rest of the prompt at the input price, hits and misses at their own
  -- prices (a miss at the input price where it has none), the completion at the output price.
  token_cost_lem :
      (input output hit_price miss_price : ℕ) (m : F.Float) (mode : String) (request_price : ℤ)
      (prompt completion hit miss : ℕ)
      → prompt < 2 ^ 63
      → hit + miss < 2 ^ 63
      → token_price input output hit_price miss_price prompt completion hit miss < 2 ^ 63
      → token_cost F
          (price_of input output hit_price miss_price m mode request_price)
          (usage_of prompt completion hit miss)
        ≡ pos (token_price input output hit_price miss_price prompt completion hit miss)
  unfolding token_cost
  token_cost_lem input output hit_price miss_price m mode request_price prompt completion hit miss h
        k l =
      rw
        (
          hit_part hit miss,
          miss_part hit miss,
          regular_part prompt hit miss h k,
          price_part input miss_price,
        )
        (sum_exact (prompt - hit - miss) hit miss completion input hit_price
          (if miss_price == 0 then input else miss_price) output l)

  pub quot_pos : (n : ℕ) → quot_ℤ (pos n) 1000000 ≡ pos (n / 1000000)
  quot_pos n = ground arith

  base_cost_lem :
      (p : SettlementPricing F) (u : UsageTokens) (request_type : String) (units : ℤ) (n : ℕ)
      → p.pricing_mode ≢ "request"
      → request_type ≢ "image_generation"
      → token_cost F p u ≡ pos n
      → base_cost F p u request_type units ≡ pos (n / 1000000)
  unfolding base_cost
  base_cost_lem p u request_type units n r i e =
      rw (other p.pricing_mode "request" r, other request_type "image_generation" i, e) (quot_pos n)
    where
      other : (a b : String) → a ≢ b → str_eq a b ≡ false
      other a b h = ground (arith, eq_iff a b)

  -- For a model that is not priced per request and a request that is no image generation, where
  -- counts and prices are not negative and the prompt, the sum of hits and misses, and the whole
  -- sum stay below 2^63, the computed cost is the formula of the code's comment (the rest of the
  -- prompt at the input price, hits and misses at their own prices, a miss at the input price
  -- where it has none, the completion at the output price), divided by a million and scaled by
  -- the multiplier, or by 1 where the multiplier is not above 0; it is 0 where the quotient is 0.
  pub compute_actual_cost_lem :
      (input output hit_price miss_price : ℕ) (m : F.Float) (mode request_type : String)
      (request_price units : ℤ) (prompt completion hit miss : ℕ)
      → mode ≢ "request"
      → request_type ≢ "image_generation"
      → prompt < 2 ^ 63
      → hit + miss < 2 ^ 63
      → token_price input output hit_price miss_price prompt completion hit miss < 2 ^ 63
      → (let base =
            token_price input output hit_price miss_price prompt completion hit miss / 1000000 in
          compute_actual_cost F
            (price_of input output hit_price miss_price m mode request_price)
            (usage_of prompt completion hit miss)
            request_type
            units
          ≡ (if base == 0
              then pos 0
              else F.scale (pos base) (if F.is_at_most_zero m then F.one else m) false))
  unfolding compute_actual_cost apply_multiplier multiplier_or_one
  compute_actual_cost_lem input output hit_price miss_price m mode request_type request_price units
        prompt completion hit miss r i h k l =
      let base = token_price input output hit_price miss_price prompt completion hit miss in
      rw
        (
          compute_actual_cost,
          base_cost_lem (price_of input output hit_price miss_price m mode request_price)
              (usage_of prompt completion hit miss) request_type units base r i
              (token_cost_lem input output hit_price miss_price m mode request_price prompt
                completion hit miss h k l),
        )
        (scaled (base / 1000000) (if F.is_at_most_zero m then F.one else m))
    where
      scaled :
          (n : ℕ) (f : F.Float)
          → apply_multiplier F (pos n) f false ≡ (if n == 0 then pos 0 else F.scale (pos n) f false)
      scaled n f = ground arith
