-- ===== src/Middleware/Concurrency/Slots.antt =====
-- The counter of the slots of a model.
use ainode.Prelude.{
  ℕ, arith, ◌≡◌, refl, ◌∙◌, ap, Bool, true, false, ◌||◌, ◌&&◌, not, String, if◌then◌else◌, if-cases,
  subst, Result, ok, err,
}
use ainode.Prelude.Int.{
  ℤ, pos, ◌+ℤ◌, ◌-ℤ◌, ◌≤ℤ◌, ◌<ℤ◌, ltb_ℤ, leb_ℤ, ltb_ℤ-cases, leb_ℤ-cases, int_laws,
}
use ainode.Redis.{concurrency_model, or_zero, Redis}
use ainode.Middleware.Concurrency.{
  SlotEnv, Slot, no_slot, held, SlotError, redis_failed, model_concurrency_exceeded,
  model_concurrency_key_ttl, undo_incr, acquire_model_concurrency_slot, release,
}

module _ (R : Redis) (env : SlotEnv) (model : String) (limit : ℤ) where
  -- The requests that hold a slot of the model; a missing key counts as none.
  abbrev pub slots : R.Store → ℤ
  slots s = or_zero (R.get (concurrency_model model) s)

  up_down : (c : ℤ) → c +ℤ pos 1 -ℤ pos 1 ≡ c
  up_down c = omega int_laws

  incr_slots :
      (s : R.Store) → slots (R.incr_by (concurrency_model model) (pos 1) s) ≡ slots s +ℤ pos 1
  incr_slots s = ap or_zero (R.get-incr_by (concurrency_model model) (pos 1) s)

  decr_slots :
      (s : R.Store) → slots (R.decr_by (concurrency_model model) (pos 1) s) ≡ slots s -ℤ pos 1
  decr_slots s = ap or_zero (R.get-decr_by (concurrency_model model) (pos 1) s)

  expire_slots : (n : ℕ) (s : R.Store) → slots (R.expire (concurrency_model model) n s) ≡ slots s
  expire_slots n s =
      ap or_zero (R.get-expire (concurrency_model model) (concurrency_model model) n s)

  -- The count after an acquisition that gave no slot: one too many where its INCR took place and
  -- the DECR that undoes it failed.
  abbrev pub leaked : ℤ → ℤ
  leaked c = if env.undo_fails && not env.incr_fails then c +ℤ pos 1 else c

  undone :
      (c : ℤ) (s : R.Store)
      → env.incr_fails ≡ false
      → slots s ≡ c +ℤ pos 1
      → slots (undo_incr R env (concurrency_model model) s) ≡ leaked c
  undone c s done up = rw done (undone_by env.undo_fails)
    where
      undone_by :
          (fails : Bool)
          → slots (if fails then s else R.decr_by (concurrency_model model) (pos 1) s)
            ≡ (if fails && not false then c +ℤ pos 1 else c)
      undone_by true = up
      undone_by false = decr_slots s ∙ ap (λ x. x -ℤ pos 1) up ∙ up_down c

  -- What an acquisition answers and what it leaves of the counter.
  abbrev pub Counted : ℤ → Result SlotError Slot × R.Store → Type 0
  Counted c (ok no_slot, s) = slots s ≡ c
  Counted c (ok (held m), s) = (m ≡ model) × (slots s ≡ c +ℤ pos 1) × (slots s ≤ℤ limit)
  Counted c (err e, s) = slots s ≡ leaked c

  -- An acquisition that gives a slot counts it, and the count with it is within the limit; one
  -- that needs no slot leaves the count as it was, and so does one that is refused or fails,
  -- unless it had counted itself and the DECR that undoes this fails: then the count is one too
  -- high.
  pub acquire-Counted :
      (s : R.Store) → Counted (slots s) (acquire_model_concurrency_slot R env model limit s)
  unfolding acquire_model_concurrency_slot
  acquire-Counted s =
      let s₁ = R.incr_by (concurrency_model model) (pos 1) s in
      let s₂ = R.expire (concurrency_model model) model_concurrency_key_ttl s₁ in
      let up = expire_slots model_concurrency_key_ttl s₁ ∙ incr_slots s in
      let last : Result SlotError Slot × R.Store =
        if ltb_ℤ limit (slots s₁)
        then (err model_concurrency_exceeded, undo_incr R env (concurrency_model model) s₂)
        else (ok (held model), s₂) in
      let later : Result SlotError Slot × R.Store =
        if env.expire_fails
        then (err redis_failed, undo_incr R env (concurrency_model model) s₁)
        else last in
      let rest : Result SlotError Slot × R.Store =
        if env.incr_fails then (err redis_failed, s) else later in
      if-cases (Counted (slots s)) (leb_ℤ limit (pos 0) || not env.has_client) (ok no_slot, s) rest
        (λ _. refl)
        (λ _.
          if-cases (Counted (slots s)) env.incr_fails (err redis_failed, s) later
            (λ failed. unmoved (slots s) failed)
            (λ done.
              if-cases (Counted (slots s)) env.expire_fails
                (err redis_failed, undo_incr R env (concurrency_model model) s₁) last
                (λ _. undone (slots s) s₁ done (incr_slots s))
                (λ _.
                  if-cases (Counted (slots s)) (ltb_ℤ limit (slots s₁))
                    (err model_concurrency_exceeded, undo_incr R env (concurrency_model model) s₂)
                    (ok (held model), s₂) (λ _. undone (slots s) s₂ done up)
                    (λ e. (
                      refl,
                      up,
                      ground (
                        arith,
                        e,
                        ltb_ℤ-cases limit (slots s₁),
                        expire_slots model_concurrency_key_ttl s₁,
                      ),
                    )))))
    where
      unmoved : (c : ℤ) → env.incr_fails ≡ true → c ≡ leaked c
      unmoved c failed = ground (arith, failed)

  -- A release whose DECR works gives the slot back, down to none, also where its DEL fails.
  pub slots-release :
      (s : R.Store)
      → env.release_fails ≡ false
      → pos 0 <ℤ slots s
      → slots (release R env (held model) s) ≡ slots s -ℤ pos 1
  unfolding release
  slots-release s works h =
      let s' = R.decr_by (concurrency_model model) (pos 1) s in
      rw works (
        if-cases (λ (x : R.Store). slots x ≡ slots s -ℤ pos 1)
          (leb_ℤ (slots s') (pos 0) && not env.del_fails) (R.del (concurrency_model model) s') s'
          (λ e.
            ap or_zero (R.get-del (concurrency_model model) s')
            ∙ one_left (slots s) (slots s') h (decr_slots s) (ground (arith, e)))
          (λ _. decr_slots s))
    where
      one_left :
          (c d : ℤ) → pos 0 <ℤ c → d ≡ c -ℤ pos 1 → leb_ℤ d (pos 0) ≡ true → pos 0 ≡ c -ℤ pos 1
      one_left c d h e k =
          let l : c -ℤ pos 1 ≤ℤ pos 0 =
            subst (λ x. x ≤ℤ pos 0) e (ground (arith, k, leb_ℤ-cases d (pos 0))) in
          omega (int_laws, h, l)

  -- Where the count is not negative, a slot that is given and then released without an error of
  -- DECR leaves the count as it was.
  pub release-acquire :
      (s s' : R.Store)
      → env.release_fails ≡ false
      → pos 0 ≤ℤ slots s
      → acquire_model_concurrency_slot R env model limit s ≡ (ok (held model), s')
      → slots (release R env (held model) s') ≡ slots s
  release-acquire s s' works h e =
      let (m, up, l) = subst (Counted (slots s)) e (acquire-Counted s) in
      slots-release s' works (rw up (omega (int_laws, h)))
      ∙ ap (λ c. c -ℤ pos 1) up
      ∙ up_down (slots s)
