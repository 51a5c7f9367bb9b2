-- ===== src/Channel/Manager/Weights.antt =====
-- The share of the calls that a channel gets.
use ainode.Prelude.{
  ℕ, ◌+◌, ◌%◌, ◌^◌, ◌<◌, ◌≤◌, arith, ◌≡◌, sym, subst, Option, none, some, List, [], ◌∷◌, ◌++◌,
}
use ainode.Prelude.Int.{ℤ}
use ainode.Channel.Manager.{
  Channel, channel_weight, read_channel_weight, total_weight, walk_weights, pick_weighted_channel,
}

-- Every weight is at least 1, so a channel can always be picked.
pub weight_positive : (o : Option ℤ) → 1 ≤ read_channel_weight o
unfolding read_channel_weight
weight_positive none = omega arith
weight_positive (some w) = ground arith

total-append : (xs ys : List Channel) → total_weight (xs ++ ys) ≡ total_weight xs + total_weight ys
unfolding total_weight
total-append [] ys = omega arith
total-append (x ∷ xs) ys = omega (arith, total-append xs ys)

walk_from :
    (t c : ℕ) (xs ys : List Channel) (ch : Channel)
    → c + total_weight xs ≤ t
    → t < c + total_weight xs + channel_weight ch
    → walk_weights t c (xs ++ (ch ∷ ys)) ≡ some ch
unfolding walk_weights total_weight
walk_from t c [] ys ch h k = ground arith
walk_from t c (x ∷ xs) ys ch h k =
    ground
      (arith, walk_from t (c + channel_weight x) xs ys ch (omega (arith, h)) (omega (arith, k)))

-- Of the numbers below the total weight, the walk takes to a channel exactly those in the interval
-- that begins at the weights before it and has its own weight as its length.
pub walk_weights_lem :
    (t : ℕ) (xs ys : List Channel) (ch : Channel)
    → total_weight xs ≤ t
    → t < total_weight xs + channel_weight ch
    → walk_weights t 0 (xs ++ (ch ∷ ys)) ≡ some ch
walk_weights_lem t xs ys ch h k = walk_from t 0 xs ys ch (omega (arith, h)) (omega (arith, k))

total_positive : (ch : Channel) (chs : List Channel) → 1 ≤ total_weight (ch ∷ chs)
unfolding total_weight
total_positive ch chs = omega (arith, weight_positive ch.weight)

-- Among two channels or more, the call whose round-robin number falls, modulo the total weight,
-- into the interval of a channel (from the weights before it, as long as its own weight) picks
-- that channel, and leaves the number as the index.
pub pick_share :
    (first second : Channel) (rest xs ys : List Channel) (ch : Channel) (i : ℕ)
    → first ∷ second ∷ rest ≡ xs ++ (ch ∷ ys)
    → total_weight xs ≤ (i + 1) % 2 ^ 64 % total_weight (first ∷ second ∷ rest)
    → (i + 1) % 2 ^ 64 % total_weight (first ∷ second ∷ rest) < total_weight xs + channel_weight ch
    → pick_weighted_channel first (second ∷ rest) i ≡ (ch, (i + 1) % 2 ^ 64)
unfolding pick_weighted_channel
pick_share first second rest xs ys ch i e h k =
    let w =
      subst
        (λ l. walk_weights ((i + 1) % 2 ^ 64 % total_weight (first ∷ second ∷ rest)) 0 l ≡ some ch)
        (sym e)
        (walk_weights_lem ((i + 1) % 2 ^ 64 % total_weight (first ∷ second ∷ rest)) xs ys ch h k) in
    ground (arith, w, total_positive first (second ∷ rest))
