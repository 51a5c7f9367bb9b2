-- ===== src/Channel/Manager/Probing.antt =====
-- What getNextChannel does to the breaker of a channel that it then passes over.
use ainode.Prelude.{
  ℕ, ◌+◌, ◌≤◌, ◌≡◌, refl, arith, Bool, true, false, not, ◌&&◌, some, List, [], ◌∷◌, All, err,
}
use ainode.Provider.{Registry}
use ainode.Channel.Breaker.{
  CircuitBreaker, Breakers, open_circuit, cooldown_duration, is_circuit_blocked, Event, step, run,
}
use ainode.Channel.Breaker.Probes.{leaves_alone, cooldown_admits_one}
use ainode.Channel.Manager.{
  Channel, Manager, no_channel_supports, Wanted, is_excluded, is_suitable, available_channels,
  pick_among, next_among, get_next_channel,
}

passes_over :
    (registry : Registry) (w : Wanted) (now : ℕ) (ch : Channel) (bs : Breakers)
    → is_excluded ch.id w.excluded ≡ false
    → is_suitable registry w ch ≡ false
    → available_channels registry w now (ch ∷ []) bs ≡ ([], (is_circuit_blocked ch.id now bs).1)
unfolding available_channels
passes_over registry w now ch bs x u =
    rw (available_channels, x, u) (rw (and_false (not (is_circuit_blocked ch.id now bs).0)) refl)
  where
    and_false : (b : Bool) → (b && false) ≡ false
    and_false b = ground arith

alone :
    (registry : Registry) (w : Wanted) (now : ℕ) (m : Manager) (ch : Channel)
    → m.channels ≡ ch ∷ []
    → is_excluded ch.id w.excluded ≡ false
    → is_suitable registry w ch ≡ false
    → get_next_channel registry w now m ≡ (
      err (no_channel_supports w.model_name),
      record m { breakers = (is_circuit_blocked ch.id now m.breakers).1 },
    )
unfolding get_next_channel next_among pick_among
alone registry w now m ch e x u =
    simp (get_next_channel, e, passes_over registry w now ch m.breakers x u) refl

-- Where the pool is one channel that is not excluded but does not suit the call, and its breaker
-- is open with the cooldown over, the call fails, and from then on the breaker blocks the channel
-- at any later time, as long as nothing happens but asks and calls about other channels.
pub probe_lost :
    (registry : Registry) (w : Wanted) (now later : ℕ) (m : Manager) (ch : Channel)
    (cb : CircuitBreaker) (es : List Event)
    → m.channels ≡ ch ∷ []
    → is_excluded ch.id w.excluded ≡ false
    → is_suitable registry w ch ≡ false
    → m.breakers ch.id ≡ some cb
    → cb.state ≡ open_circuit
    → cb.last_failure_at + cooldown_duration ≤ now
    → All (λ e. leaves_alone ch.id e ≡ true) es
    → (let (answer, m') = get_next_channel registry w now m in
        (answer ≡ err (no_channel_supports w.model_name))
        × ((is_circuit_blocked ch.id later (run es m'.breakers)).0 ≡ true))
unfolding step
probe_lost registry w now later m ch cb es e x u h o k l =
    rw (alone registry w now m ch e x u)
      (refl, (cooldown_admits_one ch.id now later m.breakers cb es h o k l).1)
