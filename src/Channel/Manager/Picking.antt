-- ===== src/Channel/Manager/Picking.antt =====
-- What holds of every channel on offer holds of the one that pickWeightedChannel picks.
use ainode.Prelude.{
  ℕ, ◌+◌, ◌%◌, ◌^◌, if-cases, some, List, [], ◌∷◌, All, length, get_elem?, ltb, ◌==◌, zero, suc,
}
use ainode.Channel.Manager.{
  Channel, channel_weight, walk_weights, last_channel, or_channel, total_weight,
  pick_weighted_channel,
}

module _ {ℓ} (P : Channel → Type ℓ) where
  get_elem?_keeps :
      (chs : List Channel) (i : ℕ) (ch : Channel)
      → All P chs
      → P ch
      → P (or_channel (get_elem? chs i) ch)
  get_elem?_keeps [] i ch h d = d
  get_elem?_keeps (c ∷ cs) zero ch h d = h.0
  get_elem?_keeps (c ∷ cs) (suc i) ch h d = get_elem?_keeps cs i ch h.1 d

  walk_keeps :
      (t c : ℕ) (chs : List Channel) (ch : Channel)
      → All P chs
      → P ch
      → P (or_channel (walk_weights t c chs) ch)
  unfolding walk_weights
  walk_keeps t c [] ch h d = d
  walk_keeps t c (x ∷ xs) ch h d =
      if-cases (λ o. P (or_channel o ch)) (ltb t (c + channel_weight x)) (some x)
        (walk_weights t (c + channel_weight x) xs) (λ e. h.0)
        (λ e. walk_keeps t (c + channel_weight x) xs ch h.1 d)

  last_keeps : (ch : Channel) (chs : List Channel) → P ch → All P chs → P (last_channel ch chs)
  unfolding last_channel
  last_keeps ch [] h k = h
  last_keeps ch (c ∷ cs) h k = last_keeps c cs k.0 k.1

  -- What holds of every channel on offer holds of the one that is picked.
  pub pick_keeps :
      (ch : Channel) (chs : List Channel) (i : ℕ)
      → P ch
      → All P chs
      → P (pick_weighted_channel ch chs i).0
  unfolding pick_weighted_channel
  pick_keeps ch [] i h k = h
  pick_keeps ch (c ∷ cs) i h k =
      let all = ch ∷ c ∷ cs in
      let i' = (i + 1) % 2 ^ 64 in
      if-cases (λ (p : Channel × ℕ). P p.0) (total_weight all == 0)
        (or_channel (get_elem? all (i' % length all)) ch, i')
        (or_channel (walk_weights (i' % total_weight all) 0 all) (last_channel c cs), i')
        (λ e. get_elem?_keeps all (i' % length all) ch (h, k) h)
        (λ e.
          walk_keeps (i' % total_weight all) 0 all (last_channel c cs) (h, k)
            (last_keeps c cs k.0 k.1))
