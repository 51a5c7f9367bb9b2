-- ===== src/Channel/Breaker/Probes.antt =====
-- The half-open state: who is let through after the cooldown, and after ProbeChannel.
use ainode.Prelude.{
  ℕ, ◌+◌, ◌≤◌, arith, ◌≡◌, refl, ◌∙◌, inl, inr, Bool, true, false, not, some, List, [], ◌∷◌,
  Option-cases, Bool-cases, All,
}
use ainode.Prelude.Int.{ℤ, pos, eqb_ℤ, eqb_ℤ-eq}
use ainode.Channel.Breaker.{
  CircuitState, closed, half_open, open_circuit, CircuitBreaker, Breakers, put_breaker, or_new,
  cooldown_duration, admit, is_circuit_blocked, mark_channel_failed, close_breaker,
  mark_channel_succeeded, reset_circuit_breaker, probe_channel, Event, asks, fails, succeeds,
  resets, probes, step, run,
}
use ainode.Channel.Breaker.Trips.{put_breaker_same}

-- Only asks about the channel, and anything about the other channels.
abbrev pub leaves_alone : ℤ → Event → Bool
leaves_alone id (asks j now) = true
leaves_alone id (fails j now) = not (eqb_ℤ j id)
leaves_alone id (succeeds j now) = not (eqb_ℤ j id)
leaves_alone id (resets j now) = not (eqb_ℤ j id)
leaves_alone id (probes j) = not (eqb_ℤ j id)

passed_over :
    (id j : ℤ) (cb : CircuitBreaker) (m : Breakers)
    → eqb_ℤ j id ≡ false
    → put_breaker j cb m id ≡ m id
passed_over id j cb m n = ground (arith, n)

pub asks_others :
    (id j : ℤ) (now : ℕ) (m : Breakers)
    → eqb_ℤ j id ≡ false
    → (is_circuit_blocked j now m).1 id ≡ m id
unfolding is_circuit_blocked
asks_others id j now m n = elim (Option-cases (m j)) [
  | inl e ↦ rw (is_circuit_blocked, e) refl
  | inr (cb, e) ↦ rw (is_circuit_blocked, e) (passed_over id j (admit cb.state now cb).1 m n)
]

resets_others :
    (id j : ℤ) (now : ℕ) (m : Breakers)
    → eqb_ℤ j id ≡ false
    → reset_circuit_breaker j now m id ≡ m id
unfolding reset_circuit_breaker
resets_others id j now m n = elim (Option-cases (m j)) [
  | inl e ↦ rw (reset_circuit_breaker, e) refl
  | inr (cb, e) ↦ rw (reset_circuit_breaker, e) (passed_over id j (close_breaker now cb) m n)
]

admit_half_open :
    (st : CircuitState) (now : ℕ) (cb : CircuitBreaker) → st ≡ half_open → (admit st now cb).1 ≡ cb
unfolding admit
admit_half_open closed now cb h = ground arith
admit_half_open half_open now cb h = refl
admit_half_open open_circuit now cb h = ground arith

asks_half_open :
    (id : ℤ) (now : ℕ) (m : Breakers) (cb : CircuitBreaker)
    → m id ≡ some cb
    → cb.state ≡ half_open
    → (is_circuit_blocked id now m).1 id ≡ some cb
unfolding is_circuit_blocked
asks_half_open id now m cb h o =
    rw (is_circuit_blocked, h) (rw (admit_half_open cb.state now cb o) (put_breaker_same id cb m))

-- In the half-open state an ask changes nothing.
half_open_stays :
    (id : ℤ) (m : Breakers) (cb : CircuitBreaker) (e : Event)
    → m id ≡ some cb
    → cb.state ≡ half_open
    → leaves_alone id e ≡ true
    → step m e id ≡ some cb
unfolding step mark_channel_failed mark_channel_succeeded probe_channel
half_open_stays id m cb (asks j now) h o l = elim (Bool-cases (eqb_ℤ j id)) [
  | inl e ↦ rw (eqb_ℤ-eq j id e) (asks_half_open id now m cb h o)
  | inr n ↦ asks_others id j now m n ∙ h
]
half_open_stays id m cb (fails j now) h o l = ground (arith, h)
half_open_stays id m cb (succeeds j now) h o l = ground (arith, h)
half_open_stays id m cb (resets j now) h o l = resets_others id j now m (ground arith) ∙ h
half_open_stays id m cb (probes j) h o l = ground (arith, h)

half_open_run :
    (id : ℤ) (m : Breakers) (cb : CircuitBreaker) (es : List Event)
    → m id ≡ some cb
    → cb.state ≡ half_open
    → All (λ e. leaves_alone id e ≡ true) es
    → run es m id ≡ some cb
unfolding run
half_open_run id m cb [] h o l = h
half_open_run id m cb (e ∷ es) h o l =
    half_open_run id (step m e) cb es (half_open_stays id m cb e h o l.0) o l.1

pub half_open_answer :
    (id : ℤ) (now : ℕ) (m : Breakers) (cb : CircuitBreaker)
    → m id ≡ some cb
    → cb.state ≡ half_open
    → (is_circuit_blocked id now m).0 ≡ cb.probe_in_flight
unfolding is_circuit_blocked admit
half_open_answer id now m cb h o = rw (is_circuit_blocked, h) (rw o refl)

cooled :
    (id : ℤ) (now : ℕ) (m : Breakers) (cb : CircuitBreaker)
    → m id ≡ some cb
    → cb.state ≡ open_circuit
    → cb.last_failure_at + cooldown_duration ≤ now
    → ((is_circuit_blocked id now m).0 ≡ false)
      × ((is_circuit_blocked id now m).1 id
          ≡ some (record cb { state = half_open; probe_in_flight = true }))
unfolding is_circuit_blocked admit
cooled id now m cb h o k = rw (is_circuit_blocked, h) (rw o (ground arith))

-- While a probe of a half-open breaker is in flight, the channel is blocked at any later time,
-- however late, as long as nothing happens but asks and calls about other channels.
pub probe_in_flight_blocks :
    (id : ℤ) (now : ℕ) (m : Breakers) (cb : CircuitBreaker) (es : List Event)
    → m id ≡ some cb
    → cb.state ≡ half_open
    → cb.probe_in_flight ≡ true
    → All (λ e. leaves_alone id e ≡ true) es
    → (is_circuit_blocked id now (run es m)).0 ≡ true
probe_in_flight_blocks id now m cb es h o p l =
    half_open_answer id now (run es m) cb (half_open_run id m cb es h o l) o ∙ p

-- After the cooldown of an open breaker the next ask is let through, and after that no ask is
-- while nothing happens but asks and calls about other channels.
pub cooldown_admits_one :
    (id : ℤ) (now later : ℕ) (m : Breakers) (cb : CircuitBreaker) (es : List Event)
    → m id ≡ some cb
    → cb.state ≡ open_circuit
    → cb.last_failure_at + cooldown_duration ≤ now
    → All (λ e. leaves_alone id e ≡ true) es
    → ((is_circuit_blocked id now m).0 ≡ false)
      × ((is_circuit_blocked id later (run es (step m (asks id now)))).0 ≡ true)
unfolding step
cooldown_admits_one id now later m cb es h o k l =
    let (a, b) = cooled id now m cb h o k in
    (
      a,
      probe_in_flight_blocks id later (is_circuit_blocked id now m).1
          (record cb { state = half_open; probe_in_flight = true }) es b refl refl l,
    )

-- After ProbeChannel every later ask about the channel is let through, however many came before
-- it, as long as nothing else happened but asks and calls about other channels.
pub probe_channel_admits_every :
    (id : ℤ) (now : ℕ) (m : Breakers) (es : List Event)
    → All (λ e. leaves_alone id e ≡ true) es
    → (is_circuit_blocked id now (run es (probe_channel id m))).0 ≡ false
unfolding probe_channel
probe_channel_admits_every id now m es l =
    let cb = record (or_new (m id)) {
      state = half_open;
      failure_count = pos 0;
      probe_in_flight = false;
    } in
    half_open_answer id now (run es (probe_channel id m)) cb
      (half_open_run id (probe_channel id m) cb es (put_breaker_same id cb m) refl l) refl

-- An answer depends on the breaker of its own channel alone.
pub blocked_alike :
    (id : ℤ) (now : ℕ) (m m' : Breakers)
    → m id ≡ m' id
    → (is_circuit_blocked id now m).0 ≡ (is_circuit_blocked id now m').0
unfolding is_circuit_blocked
blocked_alike id now m m' h = elim (Option-cases (m' id)) [
  | inl e ↦ rw (is_circuit_blocked, h ∙ e, e) refl
  | inr (cb, e) ↦ rw (is_circuit_blocked, h ∙ e, e) refl
]
