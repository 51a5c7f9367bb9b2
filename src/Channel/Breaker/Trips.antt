-- ===== src/Channel/Breaker/Trips.antt =====
-- When a run of failures opens a breaker, and for how long it then blocks its channel.
use ainode.Prelude.{
  ℕ, ◌+◌, ◌≤◌, ◌<◌, suc, arith, ◌≡◌, ◌≢◌, refl, Bool, true, ◌||◌, if◌then◌else◌, some, List, [],
  ◌∷◌, ◌++◌, map, ap, length,
}
use ainode.Prelude.Int.{ℤ, pos, ◌+ℤ◌, pos_part, +ℤ_parts, parts_exclusive, int64, leb_ℤ}
use ainode.Channel.Breaker.{
  CircuitState, closed, half_open, open_circuit, CircuitBreaker, Breakers, put_breaker, or_new,
  is_half_open, failure_threshold, cooldown_duration, admit, is_circuit_blocked, fail_breaker,
  mark_channel_failed, Event, fails, step, run,
}
use ainode.Channel.Breaker.Invariant.{
  IsSound, AreSound, fail_breaker-IsSound, or_new-IsSound, step-AreSound, not_tripped, count_up,
}

pub put_breaker_same :
    (id : ℤ) (cb : CircuitBreaker) (m : Breakers) → put_breaker id cb m id ≡ some cb
put_breaker_same id cb m = ground arith

not_half_open :
    (st : CircuitState) (b : Bool) → (if is_half_open st || b then open_circuit else st) ≢ half_open
not_half_open closed b h = ground arith
not_half_open half_open b h = ground arith
not_half_open open_circuit b h = ground arith

-- While the breaker is still closed, it has counted k failures.
abbrev CountsAtLeast : ℕ → CircuitBreaker → Type 0
CountsAtLeast k cb = cb.state ≡ closed → k ≤ pos_part cb.failure_count

fail_breaker-CountsAtLeast :
    (now k : ℕ) (cb : CircuitBreaker)
    → IsSound cb
    → CountsAtLeast k cb
    → CountsAtLeast (suc k) (fail_breaker now cb)
unfolding fail_breaker
fail_breaker-CountsAtLeast now k cb v c h =
    let (e, f) =
      not_tripped cb.state (leb_ℤ failure_threshold (int64 (cb.failure_count +ℤ pos 1))) h in
    let (n, l) = v.low e in
    rw (count_up cb.failure_count n l) (
      omega (
        arith,
        c e,
        +ℤ_parts cb.failure_count (pos 1),
        parts_exclusive (cb.failure_count +ℤ pos 1),
        n,
      ))

step_fails :
    (id : ℤ) (t : ℕ) (m : Breakers)
    → or_new (step m (fails id t) id) ≡ fail_breaker t (or_new (m id))
unfolding step mark_channel_failed
step_fails id t m = ap or_new (put_breaker_same id (fail_breaker t (or_new (m id))) m)

run_fails-CountsAtLeast :
    (id : ℤ) (ts : List ℕ) (n k : ℕ) (m : Breakers)
    → AreSound m
    → CountsAtLeast k (or_new (m id))
    → n ≤ length ts + k
    → CountsAtLeast n (or_new (run (map (fails id) ts) m id))
unfolding run
run_fails-CountsAtLeast id [] n k m v c l = λ h. omega (arith, c h, l)
run_fails-CountsAtLeast id (t ∷ ts) n k m v c l =
    run_fails-CountsAtLeast id ts n (suc k) (step m (fails id t)) (step-AreSound m (fails id t) v)
      (rw (step_fails id t m)
        (fail_breaker-CountsAtLeast t k (or_new (m id)) (or_new-IsSound (m id) (v id)) c))
      (omega (arith, l))

run-sound : (es : List Event) (m : Breakers) → AreSound m → AreSound (run es m)
unfolding run
run-sound [] m h = h
run-sound (e ∷ es) m h = run-sound es (step m e) (step-AreSound m e h)

run-append :
    (es : List Event) (e : Event) (m : Breakers) → run (es ++ (e ∷ [])) m ≡ step (run es m) e
unfolding run
run-append [] e m = refl
run-append (e' ∷ es) e m = run-append es e (step m e')

fail_breaker_time : (t : ℕ) (cb : CircuitBreaker) → (fail_breaker t cb).last_failure_at ≡ t
unfolding fail_breaker
fail_breaker_time t cb = refl

-- A breaker that is open blocks its channel until 30 seconds after the last failure.
pub open_blocks :
    (id : ℤ) (now : ℕ) (m : Breakers) (cb : CircuitBreaker)
    → m id ≡ some cb
    → cb.state ≡ open_circuit
    → now < cb.last_failure_at + cooldown_duration
    → (is_circuit_blocked id now m).0 ≡ true
unfolding is_circuit_blocked admit
open_blocks id now m cb e o k = rw (is_circuit_blocked, e) (rw o (ground arith))

fails_open :
    (t : ℕ) (cb : CircuitBreaker)
    → IsSound cb
    → CountsAtLeast 4 cb
    → (fail_breaker t cb).state ≡ open_circuit
unfolding fail_breaker
fails_open t cb v c =
    opened (fail_breaker t cb).state
      (not_half_open cb.state (leb_ℤ failure_threshold (int64 (cb.failure_count +ℤ pos 1))))
      (λ h.
        omega
          (arith, fail_breaker-CountsAtLeast t 4 cb v c h, ((fail_breaker-IsSound t cb v).low h).1))
  where
    opened : (st : CircuitState) → st ≢ half_open → st ≢ closed → st ≡ open_circuit
    opened closed h k = ground arith
    opened half_open h k = ground arith
    opened open_circuit h k = refl

-- In a state whose breakers are all sound, whatever the breaker of the channel is: after five or
-- more failures in a row the channel is blocked, until 30 seconds after the last of them.
pub five_failures_block :
    (id : ℤ) (ts : List ℕ) (t now : ℕ) (m : Breakers)
    → AreSound m
    → 4 ≤ length ts
    → now < t + cooldown_duration
    → (is_circuit_blocked id now (run (map (fails id) ts ++ (fails id t ∷ [])) m)).0 ≡ true
unfolding step mark_channel_failed
five_failures_block id ts t now m v k h =
    let m' = run (map (fails id) ts) m in
    let v' = run-sound (map (fails id) ts) m v in
    let cb = or_new (m' id) in
    rw (run-append (map (fails id) ts) (fails id t) m) (
      open_blocks id now (step m' (fails id t)) (fail_breaker t cb)
        (put_breaker_same id (fail_breaker t cb) m')
        (fails_open t cb (or_new-IsSound (m' id) (v' id))
          (run_fails-CountsAtLeast id ts 4 0 m v (λ e. omega arith) (omega (arith, k))))
        (rw (fail_breaker_time t cb) h))
