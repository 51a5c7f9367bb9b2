-- ===== src/Channel/Manager/Selection.antt =====
-- Which channel GetNextChannel answers, and when it answers none.
use ainode.Prelude.{
  ℕ, arith, ◌≡◌, refl, sym, ◌∙◌, subst, Bool, true, false, not, ◌&&◌, if-cases, List, [], ◌∷◌, All,
  In, All-In, Result, ok, err,
}
use ainode.Prelude.Int.{ℤ, eqb_ℤ}
use ainode.Channel.Manager.Picking.{pick_keeps}
use ainode.Provider.{Registry}
use ainode.Channel.Breaker.{Breakers, is_circuit_blocked}
use ainode.Channel.Breaker.Probes.{asks_others, blocked_alike}
use ainode.Channel.Manager.{
  Channel, Manager, ManagerError, Wanted, is_excluded, is_suitable, available_channels, keep_if,
  pick_among, next_among, get_next_channel,
}

-- The channel passes every test of the call; its breaker is as it stands before the call.
pub record Fits (w : Wanted) (registry : Registry) (now : ℕ) (bs : Breakers) (ch : Channel)
    : Type 0 where
  pub not_excluded : is_excluded ch.id w.excluded ≡ false
  pub suitable : is_suitable registry w ch ≡ true
  pub let_through : (is_circuit_blocked ch.id now bs).0 ≡ false

-- The ids are pairwise distinct: the primary key of the table.
abbrev pub HaveDistinctIds : List Channel → Type 0
HaveDistinctIds [] = Unit
HaveDistinctIds (ch ∷ chs) = All (λ d. eqb_ℤ ch.id d.id ≡ false) chs × HaveDistinctIds chs

-- Two maps have the same breakers for these channels.
abbrev Agree : Breakers → Breakers → List Channel → Type 0
Agree bs bs' = All (λ ch. bs ch.id ≡ bs' ch.id)

Agree-refl : (bs : Breakers) (chs : List Channel) → Agree bs bs chs
Agree-refl bs [] = tt
Agree-refl bs (ch ∷ chs) = (refl, Agree-refl bs chs)

Agree-asks :
    (id : ℤ) (now : ℕ) (bs bs' : Breakers) (chs : List Channel)
    → All (λ d. eqb_ℤ id d.id ≡ false) chs
    → Agree bs bs' chs
    → Agree (is_circuit_blocked id now bs).1 bs' chs
Agree-asks id now bs bs' [] h k = tt
Agree-asks id now bs bs' (ch ∷ chs) h k =
    (asks_others ch.id id now bs h.0 ∙ k.0, Agree-asks id now bs bs' chs h.1 k.1)

keep_if_keeps {ℓ} :
    (P : Channel → Type ℓ) (b : Bool) (ch : Channel) (chs : List Channel)
    → (b ≡ true → P ch)
    → All P chs
    → All P (keep_if b ch chs)
keep_if_keeps P true ch chs h k = (h refl, k)
keep_if_keeps P false ch chs h k = k

and_true : (a b : Bool) → (not a && b) ≡ true → (a ≡ false) × (b ≡ true)
and_true a b h = ground arith

module _ (registry : Registry) (w : Wanted) (now : ℕ) (bs₀ : Breakers) where
  available-Fits :
      (chs : List Channel) (bs : Breakers)
      → HaveDistinctIds chs
      → Agree bs bs₀ chs
      → All (Fits w registry now bs₀) (available_channels registry w now chs bs).0
  unfolding available_channels
  available-Fits [] bs u a = tt
  available-Fits (ch ∷ chs) bs u a =
      let asked = is_circuit_blocked ch.id now bs in
      let rest = available_channels registry w now chs asked.1 in
      let kept = not asked.0 && is_suitable registry w ch in
      if-cases (λ (p : List Channel × Breakers). All (Fits w registry now bs₀) p.0)
        (is_excluded ch.id w.excluded) (available_channels registry w now chs bs)
        (keep_if kept ch rest.0, rest.1) (λ e. available-Fits chs bs u.1 a.1)
        (λ e.
          keep_if_keeps (Fits w registry now bs₀) kept ch rest.0
            (λ k.
              let (l, s) = and_true asked.0 (is_suitable registry w ch) k in
              record {
                not_excluded = e;
                suitable = s;
                let_through = sym (blocked_alike ch.id now bs bs₀ a.0) ∙ l;
              })
            (available-Fits chs asked.1 u.1 (Agree-asks ch.id now bs bs₀ chs u.0 a.1)))

  -- Where no channel is left, none fits.
  none_left :
      (chs : List Channel) (bs : Breakers)
      → HaveDistinctIds chs
      → Agree bs bs₀ chs
      → (available_channels registry w now chs bs).0 ≡ []
      → All (λ ch. ¬ Fits w registry now bs₀ ch) chs
  unfolding available_channels
  none_left [] bs u a n = tt
  none_left (ch ∷ chs) bs u a n =
      let asked = is_circuit_blocked ch.id now bs in
      let rest = available_channels registry w now chs asked.1 in
      let kept = not asked.0 && is_suitable registry w ch in
      if-cases
        (λ (p : List Channel × Breakers).
          p.0 ≡ [] → All (λ ch. ¬ Fits w registry now bs₀ ch) (ch ∷ chs))
        (is_excluded ch.id w.excluded) (available_channels registry w now chs bs)
        (keep_if kept ch rest.0, rest.1)
        (λ e n. ((λ f. true_or_false e f.not_excluded), none_left chs bs u.1 a.1 n))
        (λ e n.
          let (k, n') = not_kept kept ch rest.0 n in
          (
            (λ f.
                not_both asked.0 (is_suitable registry w ch) k
                  (blocked_alike ch.id now bs bs₀ a.0 ∙ f.let_through) f.suitable),
            none_left chs asked.1 u.1 (Agree-asks ch.id now bs bs₀ chs u.0 a.1) n',
          ))
        n
    where
      true_or_false : {b : Bool} → b ≡ true → b ≡ false → ⊥
      true_or_false h k = cc

      not_kept :
          (b : Bool) (c : Channel) (cs : List Channel)
          → keep_if b c cs ≡ []
          → (b ≡ false) × (cs ≡ [])
      not_kept true c cs h = cc
      not_kept false c cs h = (refl, h)

      not_both : (a b : Bool) → (not a && b) ≡ false → a ≡ false → b ≡ true → ⊥
      not_both a b h k l = ground arith

available_keeps {ℓ} :
    (P : Channel → Type ℓ) (registry : Registry) (w : Wanted) (now : ℕ) (chs : List Channel)
    (bs : Breakers)
    → All P chs
    → All P (available_channels registry w now chs bs).0
unfolding available_channels
available_keeps P registry w now [] bs h = tt
available_keeps P registry w now (ch ∷ chs) bs h =
    let asked = is_circuit_blocked ch.id now bs in
    let rest = available_channels registry w now chs asked.1 in
    let kept = not asked.0 && is_suitable registry w ch in
    if-cases (λ (p : List Channel × Breakers). All P p.0) (is_excluded ch.id w.excluded)
      (available_channels registry w now chs bs) (keep_if kept ch rest.0, rest.1)
      (λ e. available_keeps P registry w now chs bs h.1)
      (λ e.
        keep_if_keeps P kept ch rest.0 (λ k. h.0)
          (available_keeps P registry w now chs asked.1 h.1))

-- What the answer of a call satisfies, if it is a channel.
abbrev pub AnswerIs : (Channel → Type 0) → Result ManagerError Channel × Manager → Type 0
AnswerIs P (ok ch, m) = P ch
AnswerIs P (err e, m) = Unit

pick_among-AnswerIs :
    (P : Channel → Type 0) (w : Wanted) (m : Manager) (chs : List Channel) (bs : Breakers)
    → All P chs
    → AnswerIs P (pick_among w m chs bs)
unfolding pick_among
pick_among-AnswerIs P w m [] bs h = tt
pick_among-AnswerIs P w m (ch ∷ chs) bs h = pick_keeps P ch chs m.index h.0 h.1

next_among-AnswerIs :
    (registry : Registry) (w : Wanted) (now : ℕ) (m : Manager) (chs : List Channel)
    → HaveDistinctIds chs
    → AnswerIs
        (λ ch. In ch chs × Fits w registry now m.breakers ch)
        (next_among registry w now m chs)
unfolding next_among
next_among-AnswerIs registry w now m [] u = tt
next_among-AnswerIs registry w now m (ch ∷ chs) u =
    let all = ch ∷ chs in
    let found = available_channels registry w now all m.breakers in
    pick_among-AnswerIs (λ c. In c all × Fits w registry now m.breakers c) w m found.0 found.1
      (both found.0 (available_keeps (λ c. In c all) registry w now all m.breakers (All-In all))
        (available-Fits registry w now m.breakers all m.breakers u (Agree-refl m.breakers all)))
  where
    both :
        (xs : List Channel)
        → All (λ c. In c (ch ∷ chs)) xs
        → All (Fits w registry now m.breakers) xs
        → All (λ c. In c (ch ∷ chs) × Fits w registry now m.breakers c) xs
    both [] h k = tt
    both (x ∷ xs) h k = ((h.0, k.0), both xs h.1 k.1)

-- Where the ids are distinct, a channel that is answered is one of the pool, is not excluded,
-- passes the tests on the asynchronous interface, the capabilities and the model, and its
-- breaker, as it stands before the call, lets the call through.
pub get_next_channel-Fits :
    (registry : Registry) (w : Wanted) (now : ℕ) (m m' : Manager) (ch : Channel)
    → HaveDistinctIds m.channels
    → get_next_channel registry w now m ≡ (ok ch, m')
    → In ch m.channels × Fits w registry now m.breakers ch
unfolding get_next_channel
get_next_channel-Fits registry w now m m' ch u e =
    subst (AnswerIs (λ c. In c m.channels × Fits w registry now m.breakers c)) e
      (next_among-AnswerIs registry w now m m.channels u)

abbrev Answers : Result ManagerError Channel × Manager → Type 0
Answers (ok ch, m) = Unit
Answers (err e, m) = ⊥

next_among_fails :
    (registry : Registry) (w : Wanted) (now : ℕ) (m m' : Manager) (chs : List Channel)
    (e : ManagerError)
    → HaveDistinctIds chs
    → next_among registry w now m chs ≡ (err e, m')
    → All (λ ch. ¬ Fits w registry now m.breakers ch) chs
unfolding next_among pick_among
next_among_fails registry w now m m' [] e u h = tt
next_among_fails registry w now m m' (ch ∷ chs) e u h =
    let found = available_channels registry w now (ch ∷ chs) m.breakers in
    none_left registry w now m.breakers (ch ∷ chs) m.breakers u (Agree-refl m.breakers (ch ∷ chs))
      (nothing_found found.0 found.1 h)
  where
    nothing_found :
        (cs : List Channel) (bs : Breakers) → pick_among w m cs bs ≡ (err e, m') → cs ≡ []
    nothing_found [] bs h = refl
    nothing_found (c ∷ cs) bs h = absurd (subst Answers h tt)

-- Where the ids are distinct, a call that answers an error does so only if no channel of the pool
-- fits: each is excluded, unsuitable or blocked by its breaker as it stands before the call.
pub get_next_channel_fails :
    (registry : Registry) (w : Wanted) (now : ℕ) (m m' : Manager) (e : ManagerError)
    → HaveDistinctIds m.channels
    → get_next_channel registry w now m ≡ (err e, m')
    → All (λ ch. ¬ Fits w registry now m.breakers ch) m.channels
unfolding get_next_channel
get_next_channel_fails registry w now m m' e u h =
    next_among_fails registry w now m m' m.channels e u h
