-- ===== src/Proxy/RoundTrip/Attempts.antt =====
-- How often the upstream is asked, and which answer is returned.
use ainode.Prelude.{
  ℕ, zero, suc, ◌+◌, ◌≤◌, arith, ◌≡◌, refl, sym, subst, true, false, not, List, [], ◌∷◌, ◌++◌,
  if◌then◌else◌, if-cases, All, All-append, length, length-append, Result, ok, err,
}
use ainode.Channel.Manager.{Channel, Manager, ManagerError}
use ainode.Proxy.RoundTrip.{
  Answer, no_response, RoundTripError, invalid_base_url, upstream_failed, rewrite_failed,
  auth_failed, cancelled, RoundTripEnv, Attempt, Pass, returns, continues, is_failure, failed_on,
  succeeded_on, send_to, on_choice, choose, attempt, waited, is_cancelled_at, attempts, after_pass,
  round_trip, backoff_after, first_backoff,
}

abbrev pub Failed : Channel × Answer → Type 0
Failed (ch, answer) = is_failure answer ≡ true

-- The requests of a log all failed, but for the last one where it is returned.
abbrev pub Logged : Result RoundTripError (Channel × Answer) → List (Channel × Answer) → Type 0
Logged (ok (ch, answer)) log =
    (is_failure answer ≡ false)
    × ((failed : List (Channel × Answer)) × All Failed failed × (log ≡ failed ++ (ch, answer) ∷ []))
Logged (err e) log = All Failed log

abbrev PassLogged : ℕ → Pass → Type 0
PassLogged n (returns r a) = Logged r a.log × (length a.log ≤ suc n)
PassLogged n (continues a) = All Failed a.log × (length a.log ≤ suc n)

send_to-PassLogged :
    (env : RoundTripEnv) (i : ℕ) (ch : Channel) (a : Attempt) (n : ℕ)
    → All Failed a.log
    → length a.log ≤ n
    → PassLogged n (send_to env i ch a)
unfolding send_to failed_on
send_to-PassLogged env i ch a n h k =
    let answer = env.upstream i ch in
    let now = env.clock i in
    let sent : Attempt = record a { log = a.log ++ (ch, answer) ∷ [] } in
    let one_more : length (a.log ++ (ch, answer) ∷ []) ≤ suc n =
      omega (arith, length-append a.log ((ch, answer) ∷ []), k) in
    let P = PassLogged n in
    let asked : Pass =
      if is_failure answer
      then continues (failed_on ch.id now (upstream_failed answer) sent)
      else returns (ok (ch, answer)) (succeeded_on ch.id now sent) in
    let authenticated : Pass =
      if not (env.authenticates i ch) then returns (err auth_failed) a else asked in
    let parsed : Pass =
      if not (env.base_url_is_valid i ch)
      then continues (failed_on ch.id now invalid_base_url a)
      else authenticated in
    if-cases P (not (env.rewrites i ch)) (returns (err rewrite_failed) a) parsed
      (λ _. (h, omega (arith, k)))
      (λ _.
        if-cases P (not (env.base_url_is_valid i ch))
          (continues (failed_on ch.id now invalid_base_url a)) authenticated
          (λ _. (h, omega (arith, k)))
          (λ _.
            if-cases P (not (env.authenticates i ch)) (returns (err auth_failed) a) asked
              (λ _. (h, omega (arith, k)))
              (λ _.
                if-cases P (is_failure answer)
                  (continues (failed_on ch.id now (upstream_failed answer) sent))
                  (returns (ok (ch, answer)) (succeeded_on ch.id now sent))
                  (λ e. (All-append Failed a.log ((ch, answer) ∷ []) h (e, tt), one_more))
                  (λ e. ((e, (a.log, h, refl)), one_more)))))

on_choice-PassLogged :
    (env : RoundTripEnv) (i : ℕ) (a : Attempt) (r : Result ManagerError Channel × Manager) (n : ℕ)
    → All Failed a.log
    → length a.log ≤ n
    → PassLogged n (on_choice env i a r)
unfolding on_choice
on_choice-PassLogged env i a (err e, m) n h k = (h, omega (arith, k))
on_choice-PassLogged env i a (ok ch, m) n h k =
    send_to-PassLogged env i ch (record a { manager = m }) n h k

waited_log : (i backoff : ℕ) (a : Attempt) → (waited i backoff a).log ≡ a.log
waited_log zero backoff a = refl
waited_log (suc i) backoff a = refl

attempt-PassLogged :
    (env : RoundTripEnv) (i backoff : ℕ) (a : Attempt) (n : ℕ)
    → All Failed a.log
    → length a.log ≤ n
    → PassLogged n (attempt env i backoff a)
unfolding attempt
attempt-PassLogged env i backoff a n h k =
    let a' = waited i backoff a in
    let choice = choose env a'.attempted (env.clock i) a'.manager in
    if-cases (PassLogged n) (is_cancelled_at env i) (returns (err cancelled) a)
      (on_choice env i a' choice) (λ _. (h, omega (arith, k)))
      (λ _.
        on_choice-PassLogged env i a' choice n (subst (All Failed) (sym (waited_log i backoff a)) h)
          (subst (λ (l : List (Channel × Answer)). length l ≤ n) (sym (waited_log i backoff a)) k))

attempts-Logged :
    (env : RoundTripEnv) (left i backoff : ℕ) (a : Attempt) (n : ℕ)
    → All Failed a.log
    → length a.log ≤ n
    → Logged (attempts env left i backoff a).0 (attempts env left i backoff a).1.log
      × (length (attempts env left i backoff a).1.log ≤ n + left)
unfolding attempts
attempts-Logged env zero i backoff a n h k = (h, omega (arith, k))
attempts-Logged env (suc left) i backoff a n h k =
    go (attempt env i backoff a) (attempt-PassLogged env i backoff a n h k)
      (λ a' h' k'. attempts-Logged env left (suc i) (backoff_after i backoff) a' (suc n) h' k')
  where
    go :
        (p : Pass)
        → PassLogged n p
        → ((a' : Attempt)
            → All Failed a'.log
            → length a'.log ≤ suc n
            → Logged
                (attempts env left (suc i) (backoff_after i backoff) a').0
                (attempts env left (suc i) (backoff_after i backoff) a').1.log
              × (length (attempts env left (suc i) (backoff_after i backoff) a').1.log
                  ≤ suc n + left))
        → Logged
            (after_pass p (attempts env left (suc i) (backoff_after i backoff))).0
            (after_pass p (attempts env left (suc i) (backoff_after i backoff))).1.log
          × (length (after_pass p (attempts env left (suc i) (backoff_after i backoff))).1.log
              ≤ n + suc left)
    go (returns r a') p rec = (p.0, omega (arith, p.1))
    go (continues a') p rec = let q = rec a' p.0 p.1 in (q.0, omega (arith, q.1))

-- The upstream is asked at most once more than there are retries. A response is returned as a
-- success only if it is no failure, and then it is that of the last request, and every request
-- before it failed; a call that ends otherwise has seen only failures.
pub round_trip-Logged :
    (env : RoundTripEnv) (max_retries : ℕ) (m : Manager)
    → Logged (round_trip env max_retries m).0 (round_trip env max_retries m).1.log
      × (length (round_trip env max_retries m).1.log ≤ suc max_retries)
unfolding round_trip
round_trip-Logged env max_retries m =
    let a : Attempt = record {
      manager = m;
      attempted = [];
      last = upstream_failed no_response;
      waits = [];
      log = [];
    } in
    let (l, k) = attempts-Logged env (suc max_retries) 0 first_backoff a 0 tt (omega arith) in
    (l, omega (arith, k))
