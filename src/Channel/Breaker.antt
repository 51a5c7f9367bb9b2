-- ===== src/Channel/Breaker.antt =====
-- The circuit breakers of the channels: internal/channel/circuit_breaker.go. A method runs under
-- breakerMu, so it is one step; the clock is its argument, in nanoseconds. Logs and metrics are
-- left out.
pub mod Invariant
pub mod Trips
pub mod Probes
use ainode.Prelude.{
  List, [], ◌∷◌, ℕ, ◌+◌, Bool, true, false, ◌||◌, Option, none, some, String, if◌then◌else◌, ltb,
}
use ainode.Prelude.Int.{ℤ, pos, ◌+ℤ◌, leb_ℤ, eqb_ℤ, int64}

pub data CircuitState : Type 0 where
  closed half_open open_circuit : CircuitState

abbrev pub failure_threshold : ℤ
failure_threshold = pos 5

-- 30 * time.Second
abbrev pub cooldown_duration : ℕ
cooldown_duration = 30000000000

pub record CircuitBreaker : Type 0 where
  pub state : CircuitState
  pub failure_count : ℤ
  pub last_failure_at : ℕ
  pub last_success_at : ℕ
  pub probe_in_flight : Bool

-- The map `breakers`.
abbrev pub Breakers : Type 0
Breakers = ℤ → Option CircuitBreaker

abbrev pub put_breaker : ℤ → CircuitBreaker → Breakers → Breakers
put_breaker id cb m j = if eqb_ℤ id j then some cb else m j

unfoldable pub new_breaker : CircuitBreaker
new_breaker = record {
  state = closed;
  failure_count = pos 0;
  last_failure_at = 0;
  last_success_at = 0;
  probe_in_flight = false;
}

abbrev pub or_new : Option CircuitBreaker → CircuitBreaker
or_new none = new_breaker
or_new (some cb) = cb

-- getOrCreateBreakerLocked; the methods that call it store the breaker back.
abbrev pub get_or_create_breaker : ℤ → Breakers → CircuitBreaker
get_or_create_breaker id m = or_new (m id)

unfoldable pub circuit_state_label : CircuitState → String
circuit_state_label half_open = "half_open"
circuit_state_label open_circuit = "open"
circuit_state_label closed = "closed"

-- time.Since(lastFailureAt) < cooldownDuration
abbrev pub is_cooling : ℕ → CircuitBreaker → Bool
is_cooling now cb = ltb now (cb.last_failure_at + cooldown_duration)

-- The switch of isCircuitBlocked: the answer, and the breaker that it leaves.
unfoldable pub admit : CircuitState → ℕ → CircuitBreaker → Bool × CircuitBreaker
admit closed now cb = (false, cb)
admit open_circuit now cb =
    if is_cooling now cb
    then (true, cb)
    else (false, record cb { state = half_open; probe_in_flight = true })
admit half_open now cb = (cb.probe_in_flight, cb)

unfoldable pub is_circuit_blocked : ℤ → ℕ → Breakers → Bool × Breakers
unfolding admit
is_circuit_blocked id now m = elim (m id) [
  | none ↦ (false, m)
  | some cb ↦ let (blocked, cb') = admit cb.state now cb in (blocked, put_breaker id cb' m)
]

abbrev pub is_half_open : CircuitState → Bool
is_half_open half_open = true
is_half_open _ = false

unfoldable pub fail_breaker : ℕ → CircuitBreaker → CircuitBreaker
fail_breaker now cb =
    let count = int64 (cb.failure_count +ℤ pos 1) in
    record cb {
      state =
          if is_half_open cb.state || leb_ℤ failure_threshold count then open_circuit else cb.state;
      failure_count = count;
      last_failure_at = now;
      probe_in_flight = false;
    }

unfoldable pub mark_channel_failed : ℤ → ℕ → Breakers → Breakers
unfolding fail_breaker
mark_channel_failed id now m = put_breaker id (fail_breaker now (get_or_create_breaker id m)) m

abbrev pub close_breaker : ℕ → CircuitBreaker → CircuitBreaker
close_breaker now cb = record cb {
  state = closed;
  failure_count = pos 0;
  last_success_at = now;
  probe_in_flight = false;
}

unfoldable pub mark_channel_succeeded : ℤ → ℕ → Breakers → Breakers
mark_channel_succeeded id now m = put_breaker id (close_breaker now (get_or_create_breaker id m)) m

unfoldable pub reset_circuit_breaker : ℤ → ℕ → Breakers → Breakers
reset_circuit_breaker id now m = elim (m id) [
  | none ↦ m
  | some cb ↦ put_breaker id (close_breaker now cb) m
]

unfoldable pub probe_channel : ℤ → Breakers → Breakers
probe_channel id m =
    put_breaker id
      (let cb = get_or_create_breaker id m in
        record cb { state = half_open; failure_count = pos 0; probe_in_flight = false })
      m

pub record HealthSnapshot : Type 0 where
  pub channel_id : ℤ
  pub circuit_state : String
  pub failure_count : ℤ
  pub last_failure_at : ℕ
  pub last_success_at : ℕ
  pub probe_in_flight : Bool
  pub cooldown_seconds : ℤ

unfoldable pub get_channel_health_snapshot : ℤ → Breakers → HealthSnapshot
unfolding circuit_state_label
get_channel_health_snapshot id m = elim (m id) [
  | none ↦ record {
    channel_id = id;
    circuit_state = circuit_state_label closed;
    failure_count = pos 0;
    last_failure_at = 0;
    last_success_at = 0;
    probe_in_flight = false;
    cooldown_seconds = pos 30;
  }
  | some cb ↦ record {
    channel_id = id;
    circuit_state = circuit_state_label cb.state;
    failure_count = cb.failure_count;
    last_failure_at = cb.last_failure_at;
    last_success_at = cb.last_success_at;
    probe_in_flight = cb.probe_in_flight;
    cooldown_seconds = pos 30;
  }
]

-- The calls of the manager and of the admin interface, as events.
pub data Event : Type 0 where
  asks fails succeeds resets : ℤ → ℕ → Event
  probes : ℤ → Event

unfoldable pub step : Breakers → Event → Breakers
unfolding is_circuit_blocked mark_channel_failed mark_channel_succeeded reset_circuit_breaker
    probe_channel
step m (asks id now) = (is_circuit_blocked id now m).1
step m (fails id now) = mark_channel_failed id now m
step m (succeeds id now) = mark_channel_succeeded id now m
step m (resets id now) = reset_circuit_breaker id now m
step m (probes id) = probe_channel id m

unfoldable pub run : List Event → Breakers → Breakers
run [] m = m
run (e ∷ es) m = run es (step m e)
