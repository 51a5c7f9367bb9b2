-- ===== src/Channel/Breaker/Invariant.antt =====
-- What holds of every breaker that any history of calls leaves.
use ainode.Prelude.{
  subst, ap, sym, ◌∙◌, ◌≡◌, refl, inl, inr, Bool, true, false, Option, none, some, List, [], ◌∷◌,
  arith, ◌<◌, ℕ, Option-cases, ◌||◌, if◌then◌else◌,
}
use ainode.Prelude.Int.{
  ℤ, pos, ◌+ℤ◌, neg_part, pos_part, int64, int64_of_IsInt64, eqb_ℤ, +ℤ_parts, parts_exclusive,
  leb_ℤ, leb_ℤ-cases,
}
use ainode.Channel.Breaker.{
  failure_threshold, is_half_open, CircuitState, closed, half_open, open_circuit, CircuitBreaker,
  Breakers, put_breaker, new_breaker, or_new, admit, is_circuit_blocked, fail_breaker,
  mark_channel_failed, close_breaker, mark_channel_succeeded, reset_circuit_breaker, probe_channel,
  Event, asks, fails, succeeds, resets, probes, step, run,
}

-- A closed breaker has counted fewer failures than the threshold, and a probe is in flight only
-- while the breaker is half open.
pub record IsSound (cb : CircuitBreaker) : Type 0 where
  pub low : cb.state ≡ closed → (neg_part cb.failure_count ≡ 0) × (pos_part cb.failure_count < 5)
  pub probing : cb.probe_in_flight ≡ true → cb.state ≡ half_open

pub new_breaker-IsSound : IsSound new_breaker
unfolding new_breaker
new_breaker-IsSound = ground arith

pub count_up : (c : ℤ) → neg_part c ≡ 0 → pos_part c < 5 → int64 (c +ℤ pos 1) ≡ c +ℤ pos 1
count_up c h k =
    int64_of_IsInt64 (c +ℤ pos 1) (omega (arith, +ℤ_parts c (pos 1), parts_exclusive (c +ℤ pos 1)))

-- A failure leaves a breaker closed only if it was closed and the count is below the threshold.
pub not_tripped :
    (st : CircuitState) (b : Bool)
    → (if is_half_open st || b then open_circuit else st) ≡ closed
    → (st ≡ closed) × (b ≡ false)
not_tripped closed b h = ground arith
not_tripped half_open b h = ground arith
not_tripped open_circuit b h = ground arith

below_threshold :
    (c : ℤ)
    → neg_part c ≡ 0
    → pos_part c < 5
    → leb_ℤ failure_threshold (int64 (c +ℤ pos 1)) ≡ false
    → (neg_part (int64 (c +ℤ pos 1)) ≡ 0) × (pos_part (int64 (c +ℤ pos 1)) < 5)
below_threshold c h k e =
    let up = count_up c h k in
    let e' = ap (leb_ℤ failure_threshold) (sym up) ∙ e in
    rw up (
      ground (
        arith,
        +ℤ_parts c (pos 1),
        parts_exclusive (c +ℤ pos 1),
        e',
        leb_ℤ-cases failure_threshold (c +ℤ pos 1),
      ))

pub fail_breaker-IsSound :
    (now : ℕ) (cb : CircuitBreaker) → IsSound cb → IsSound (fail_breaker now cb)
unfolding fail_breaker
fail_breaker-IsSound now cb v = record {
  low = λ h.
      let (e, f) =
        not_tripped cb.state (leb_ℤ failure_threshold (int64 (cb.failure_count +ℤ pos 1))) h in
      below_threshold cb.failure_count (v.low e).0 (v.low e).1 f;
  probing = λ h. ground arith;
}

admit-IsSound :
    (st : CircuitState) (now : ℕ) (cb : CircuitBreaker)
    → cb.state ≡ st
    → IsSound cb
    → IsSound (admit st now cb).1
unfolding admit
admit-IsSound closed now cb e v = v
admit-IsSound half_open now cb e v = v
admit-IsSound open_circuit now cb e v = ground (arith, v.low, v.probing)

abbrev IsSoundAt : Option CircuitBreaker → Type 0
IsSoundAt none = Unit
IsSoundAt (some cb) = IsSound cb

-- Every breaker of the map is sound.
abbrev pub AreSound : Breakers → Type 0
AreSound m = (id : ℤ) → IsSoundAt (m id)

if_keeps :
    (b : Bool) (x y : Option CircuitBreaker)
    → IsSoundAt x
    → IsSoundAt y
    → IsSoundAt (if b then x else y)
if_keeps true x y h k = h
if_keeps false x y h k = k

pub put-sound :
    (id : ℤ) (cb : CircuitBreaker) (m : Breakers)
    → IsSound cb
    → AreSound m
    → AreSound (put_breaker id cb m)
put-sound id cb m v h j = if_keeps (eqb_ℤ id j) (some cb) (m j) v (h j)

pub or_new-IsSound : (o : Option CircuitBreaker) → IsSoundAt o → IsSound (or_new o)
or_new-IsSound none h = new_breaker-IsSound
or_new-IsSound (some cb) h = h

close_breaker-IsSound : (now : ℕ) (cb : CircuitBreaker) → IsSound (close_breaker now cb)
close_breaker-IsSound now cb = ground arith

known-IsSound :
    (id : ℤ) (m : Breakers) (cb : CircuitBreaker) → AreSound m → m id ≡ some cb → IsSound cb
known-IsSound id m cb h e = subst IsSoundAt e (h id)

asks_keep :
    (id : ℤ) (now : ℕ) (m : Breakers) → AreSound m → AreSound (is_circuit_blocked id now m).1
unfolding is_circuit_blocked
asks_keep id now m h = elim (Option-cases (m id)) [
  | inl e ↦ rw (is_circuit_blocked, e) h
  | inr (cb, e) ↦
      rw (is_circuit_blocked, e)
        (put-sound id (admit cb.state now cb).1 m
          (admit-IsSound cb.state now cb refl (known-IsSound id m cb h e)) h)
]

resets_keep :
    (id : ℤ) (now : ℕ) (m : Breakers) → AreSound m → AreSound (reset_circuit_breaker id now m)
unfolding reset_circuit_breaker
resets_keep id now m h = elim (Option-cases (m id)) [
  | inl e ↦ rw (reset_circuit_breaker, e) h
  | inr (cb, e) ↦
      rw (reset_circuit_breaker, e)
        (put-sound id (close_breaker now cb) m (close_breaker-IsSound now cb) h)
]

pub step-AreSound : (m : Breakers) (e : Event) → AreSound m → AreSound (step m e)
unfolding step mark_channel_failed mark_channel_succeeded probe_channel
step-AreSound m (asks id now) h = asks_keep id now m h
step-AreSound m (fails id now) h =
    put-sound id (fail_breaker now (or_new (m id))) m
      (fail_breaker-IsSound now (or_new (m id)) (or_new-IsSound (m id) (h id))) h
step-AreSound m (succeeds id now) h =
    put-sound id (close_breaker now (or_new (m id))) m (close_breaker-IsSound now (or_new (m id))) h
step-AreSound m (resets id now) h = resets_keep id now m h
step-AreSound m (probes id) h =
    put-sound id
      (record (or_new (m id)) { state = half_open; failure_count = pos 0; probe_in_flight = false })
      m (ground arith) h

-- After any history of calls that starts without breakers, every breaker is sound: a closed one
-- has counted between 0 and 4 failures, and a probe is in flight only while it is half open.
pub run-AreSound : (es : List Event) → AreSound (run es (λ id. none))
unfolding run
run-AreSound es = go es (λ id. none) (λ id. tt)
  where
    go : (es : List Event) (m : Breakers) → AreSound m → AreSound (run es m)
    go [] m h = h
    go (e ∷ es) m h = go es (step m e) (step-AreSound m e h)
