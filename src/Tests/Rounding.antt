-- ===== src/Tests/Rounding.antt =====
-- Multipliers in hundredths, as the floating-point arithmetic of the tests.
use ainode.Prelude.{arith, ◌≡◌, Bool, true, false, ℕ, ◌+◌, ◌*◌, ◌/◌, ◌≤◌, if◌then◌else◌}
use ainode.Prelude.Int.{ℤ, pos, pos_part, neg_part, ltb_ℤ, leb_ℤ, int64, int64-IsInt64, ◌-ℤ◌, ◌*ℤ◌}
use ainode.Middleware.Auth.Reserve.{ScalesInt64}
use ainode.Middleware.Auth.Estimate.{IsMonotone}
use ainode.Proxy.Pricing.{Floats}

-- The product with hundredths: up to the next whole number toward +∞, or to the nearest, halves away
-- from 0.
abbrev pub rounded : ℤ → Bool → ℤ
rounded x up =
    if ltb_ℤ x (pos 0)
    then pos 0 -ℤ pos ((neg_part x + (if up then 0 else 50)) / 100)
    else pos ((pos_part x + (if up then 99 else 50)) / 100)

-- Multipliers in hundredths, of either sign, and int64 amounts that wrap around.
abbrev pub floats : Floats
floats = record {
  Float = ℤ;
  one = pos 100;
  is_at_most_zero = λ m. leb_ℤ m (pos 0);
  scale = λ a m up. int64 (rounded (a *ℤ m) up);
}

pub scales : ScalesInt64 floats
scales a m up = int64-IsInt64 (rounded (a *ℤ m) up)

small_scale :
    (c : ℕ) (up : Bool)
    → c ≤ 70
    → floats.scale (pos c) (pos 110) up ≡ pos ((c * 110 + (if up then 99 else 50)) / 100)
unfolding ◌*ℤ◌ int64
small_scale c true h = ground (arith, h)
small_scale c false h = ground (arith, h)

pub monotone : IsMonotone floats (pos 110) 70
monotone = record {
  rounds_mono = λ a c le small.
      rw (small_scale a false (omega (arith, le, small)), small_scale c false small)
        (omega (arith, le));
  up_above = λ c small. rw (small_scale c false small, small_scale c true small) (omega arith);
  up_nonneg = rw (small_scale 70 true (omega arith)) (omega arith);
}
