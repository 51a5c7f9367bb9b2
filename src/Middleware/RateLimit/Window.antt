-- ===== src/Middleware/RateLimit/Window.antt =====
-- The counter of one window.
use ainode.Prelude.{
  ℕ, zero, suc, ◌+◌, ◌-◌, ◌≤◌, arith, ◌≡◌, refl, ◌∙◌, ap, true, false, none, some, leb,
  if◌then◌else◌, ◌⊎◌, inl, inr,
}
use ainode.Prelude.Int.{ℤ, pos, ◌+ℤ◌, ◌≤ℤ◌, ◌<ℤ◌, ltb_ℤ-cases, int_laws}
use ainode.Redis.{Key, Redis}
use ainode.Middleware.RateLimit.{rate_limit_script}

module _ (R : Redis) (key : Key) (window : ℕ) (max_req : ℤ) where
  open R use {Store, get}

  -- The first request of a window passes whatever it asks for and whatever the limit is, and is
  -- counted in full.
  first_request_passes :
      (inc : ℤ) (s : Store)
      → get key s ≡ none
      → ((rate_limit_script R key window max_req inc s).0 ≡ true)
        × (get key (rate_limit_script R key window max_req inc s).1 ≡ some (pos 0 +ℤ inc))
  unfolding rate_limit_script
  first_request_passes inc s h =
      rw (rate_limit_script, h)
        (
          refl,
          R.get-expire key key window (R.incr_by key inc s) ∙ R.get-incr_by key inc s ∙ rw h refl,
        )

  refused_at :
      (inc later : ℤ) (s : Store)
      → get key s ≡ some (pos 0 +ℤ inc)
      → max_req <ℤ inc
      → pos 0 ≤ℤ later
      → rate_limit_script R key window max_req later s ≡ (false, s)
  unfolding rate_limit_script
  refused_at inc later s h k l =
      rw (rate_limit_script, h) (ground (arith, ltb_ℤ-cases max_req (pos 0 +ℤ inc +ℤ later), over))
    where
      over : max_req <ℤ pos 0 +ℤ inc +ℤ later
      over = omega (int_laws, k, l)

  -- The first request of a window passes even if its weight alone is above the limit, and then
  -- every request of a weight that is not negative is refused in that window and changes nothing.
  pub first_request_overruns :
      (inc later : ℤ) (s : Store)
      → get key s ≡ none
      → max_req <ℤ inc
      → pos 0 ≤ℤ later
      → (let (passed, s') = rate_limit_script R key window max_req inc s in
          (passed ≡ true) × (rate_limit_script R key window max_req later s' ≡ (false, s')))
  first_request_overruns inc later s h k l =
      let (passed, counted) = first_request_passes inc s h in
      (passed, refused_at inc later (rate_limit_script R key window max_req inc s).1 counted k l)

  -- A later request passes just if the counter with it stays within the limit, and only then it is
  -- counted; so the counter stays within the limit.
  pub later_request_counted :
      (inc c : ℤ) (s : Store)
      → get key s ≡ some c
      → ((rate_limit_script R key window max_req inc s).0 ≡ true
          × (c +ℤ inc ≤ℤ max_req)
          × (get key (rate_limit_script R key window max_req inc s).1 ≡ some (c +ℤ inc)))
        ⊎ ((rate_limit_script R key window max_req inc s).0 ≡ false
            × (max_req <ℤ c +ℤ inc)
            × ((rate_limit_script R key window max_req inc s).1 ≡ s))
  unfolding rate_limit_script
  later_request_counted inc c s h =
      rw (rate_limit_script, h)
        (ground (arith, ltb_ℤ-cases max_req (c +ℤ inc), R.get-incr_by key inc s, h))

  -- n requests of weight 1 in one window: how many of them pass.
  pub admitted : ℕ → Store → ℕ
  admitted zero s = 0
  admitted (suc n) s =
      let (ok, s') = rate_limit_script R key window max_req (pos 1) s in
      if ok then suc (admitted n s') else admitted n s'

module _ (R : Redis) (key : Key) (window limit : ℕ) where
  open R use {Store, get}

  admitted_from :
      (n c : ℕ) (s : Store)
      → get key s ≡ some (pos c)
      → c ≤ limit
      → c + admitted R key window (pos limit) n s ≡ (if leb (c + n) limit then c + n else limit)
  unfolding admitted
  admitted_from zero c s h k = ground arith
  admitted_from (suc n) c s h k =
      let s' = (rate_limit_script R key window (pos limit) (pos 1) s).1 in
      elim (later_request_counted R key window (pos limit) (pos 1) (pos c) s h) [
        | inl (a, l, g) ↦
            let l' : suc c ≤ limit = omega (int_laws, l) in
            let g' : get key s' ≡ some (pos (suc c)) = g ∙ ap some (omega int_laws) in
            ground (arith, a, admitted_from n (suc c) s' g' l', l')
        | inr (a, l, g) ↦
            let l' : limit ≤ c = omega (int_laws, l) in
            let g' : get key s' ≡ some (pos c) = ap (get key) g ∙ h in
            ground (arith, a, l', admitted_from n c s' g' k)
      ]

  -- Of n requests of weight 1 in a window that has counted c of them, within the limit, as many
  -- pass as the limit leaves room for: all n, or limit - c.
  pub admitted_lem :
      (n c : ℕ) (s : Store)
      → get key s ≡ some (pos c)
      → c ≤ limit
      → admitted R key window (pos limit) n s ≡ (if leb (c + n) limit then n else limit - c)
  admitted_lem n c s h k = ground (arith, admitted_from n c s h k)
