-- ===== src/Billing/Pools.antt =====
-- The three balance pools as amounts: internal/billing/deduct.go (Deduction, Total) and
-- splitActual3 of internal/worker/billing.go, which is also the abstract order of consumption.
pub mod Split
use ainode.Prelude.{◌≤◌, ◌≡◌, ◌||◌, arith, if◌then◌else◌}
use ainode.Prelude.Int.{ℤ, pos, pos_part, neg_part, ◌+ℤ◌, ◌-ℤ◌, ◌≤ℤ◌, leb_ℤ, ltb_ℤ, int64}
use Prim.Native.Nat.{min}

-- One amount for each pool: sub (paid subscription), grant (subscription gift), cash (top-up).
pub record Deduction : Type 0 where
  pub sub : ℤ
  pub grant : ℤ
  pub cash : ℤ

abbrev pub Pools : Type 0
Pools = Deduction

unfoldable pub total : Deduction → ℤ
total d = int64 (int64 (d.sub +ℤ d.grant) +ℤ d.cash)

-- The closure `take` of splitActual3, at its `rem`: what it takes of one pool.
unfoldable pub take : ℤ → ℤ → ℤ
take rem deducted =
    if leb_ℤ rem (pos 0) || leb_ℤ deducted (pos 0)
    then pos 0
    else if ltb_ℤ rem deducted
    then rem
    else deducted

unfoldable pub split_actual3 : ℤ → ℤ → ℤ → ℤ → Deduction
split_actual3 actual_cost sub_deducted grant_deducted cash_deducted =
    let sub = take actual_cost sub_deducted in
    let rem = actual_cost -ℤ sub in
    let grant = take rem grant_deducted in
    let rem' = rem -ℤ grant in record { sub = sub; grant = grant; cash = take rem' cash_deducted }

-- A portion is the smaller of the two amounts, where both are positive.
pub take_lem : (rem cap : ℤ) → take rem cap ≡ pos (min (pos_part rem) (pos_part cap))
unfolding take
take_lem rem cap = ground arith

-- No amount is negative.
pub record IsNonneg (d : Deduction) : Type 0 where
  pub sub_nonneg : neg_part d.sub ≡ 0
  pub grant_nonneg : neg_part d.grant ≡ 0
  pub cash_nonneg : neg_part d.cash ≡ 0

-- The pools after a deduction, and after it is given back.
abbrev pub debit : Pools → Deduction → Pools
debit p d = record { sub = p.sub -ℤ d.sub; grant = p.grant -ℤ d.grant; cash = p.cash -ℤ d.cash }

abbrev pub credit : Pools → Deduction → Pools
credit p d = record { sub = p.sub +ℤ d.sub; grant = p.grant +ℤ d.grant; cash = p.cash +ℤ d.cash }

-- What a refund of `amt` gives back of a deduction: cash first, then grant, then sub.
unfoldable pub give_back : ℤ → Deduction → Deduction
give_back amt d =
    let cash = take amt d.cash in
    let rem = amt -ℤ cash in
    let grant = take rem d.grant in
    let rem' = rem -ℤ grant in record { sub = take rem' d.sub; grant = grant; cash = cash }
