-- ===== src/Tests/Channels.antt =====
-- The breakers and the pool on three channels; channel 1 fails from time 0 on.
use ainode.Prelude.{
  ◌≡◌, err, refl, arith, ◌+◌, ◌%◌, ◌^◌, true, false, none, some, List, [], ◌∷◌, ◌++◌, map, String,
  All, In,
}
use ainode.Prelude.Int.{ℤ, pos}
use ainode.Text.{words_from, replace_all, same_codes}
use ainode.Provider.{no_capabilities, Registry, supports}
use ainode.Channel.Breaker.{
  open_circuit, half_open, CircuitBreaker, Breakers, put_breaker, Event, asks, fails, succeeds,
  step, run, is_circuit_blocked, probe_channel,
}
use ainode.Channel.Breaker.Invariant.{AreSound, run-AreSound}
use ainode.Channel.Breaker.Trips.{five_failures_block}
use ainode.Channel.Breaker.Probes.{cooldown_admits_one, probe_channel_admits_every}
use ainode.Channel.Manager.{
  Channel, Manager, no_channel_supports, Wanted, read_channel_weight, total_weight,
  pick_weighted_channel, get_next_channel,
}
use ainode.Channel.Manager.Selection.{
  Fits, HaveDistinctIds, get_next_channel-Fits, get_next_channel_fails,
}
use ainode.Channel.Manager.Weights.{pick_share}
use ainode.Channel.Manager.Probing.{probe_lost}
use ainode.Channel.Manager.{is_excluded, is_suitable}

abbrev no_breakers : Breakers
no_breakers id = none

abbrev no_breakers-AreSound : AreSound no_breakers
no_breakers-AreSound id = tt

-- Five failures, a success and two asks.
abbrev history : List Event
history =
    fails (pos 1) 1
    ∷ fails (pos 1) 2
    ∷ fails (pos 1) 3
    ∷ fails (pos 1) 4
    ∷ fails (pos 1) 5
    ∷ asks (pos 1) 6
    ∷ succeeds (pos 2) 7
    ∷ []

run-AreSound_example : AreSound (run history (λ id. none))
run-AreSound_example = run-AreSound history

five_failures_block_example :
    (is_circuit_blocked
      (pos 1)
      1000
      (run (map (fails (pos 1)) (1 ∷ 2 ∷ 3 ∷ 4 ∷ []) ++ (fails (pos 1) 5 ∷ [])) no_breakers)).0
    ≡ true
five_failures_block_example =
    five_failures_block (pos 1) (1 ∷ 2 ∷ 3 ∷ 4 ∷ []) 5 1000 no_breakers no_breakers-AreSound
      (omega arith) (omega arith)

abbrev open_breaker : CircuitBreaker
open_breaker = record {
  state = open_circuit;
  failure_count = pos 5;
  last_failure_at = 0;
  last_success_at = 0;
  probe_in_flight = false;
}

abbrev opened : Breakers
opened = put_breaker (pos 1) open_breaker no_breakers

abbrev probing : Breakers
probing =
    put_breaker (pos 1) (record open_breaker { state = half_open; probe_in_flight = true })
      no_breakers

cooldown_admits_one_example :
    ((is_circuit_blocked (pos 1) 40000000000 opened).0 ≡ false)
    × ((is_circuit_blocked (pos 1) 90000000000 (
          run
            (asks (pos 1) 80000000000 ∷ fails (pos 2) 80000000000 ∷ [])
            (step opened (asks (pos 1) 40000000000)))).0
        ≡ true)
cooldown_admits_one_example =
    cooldown_admits_one (pos 1) 40000000000 90000000000 opened open_breaker
      (asks (pos 1) 80000000000 ∷ fails (pos 2) 80000000000 ∷ []) refl refl (omega arith)
      (refl, (refl, tt))

probe_channel_admits_every_example :
    (is_circuit_blocked
      (pos 1)
      3
      (run (asks (pos 1) 1 ∷ asks (pos 1) 2 ∷ []) (probe_channel (pos 1) opened))).0
    ≡ false
probe_channel_admits_every_example =
    probe_channel_admits_every (pos 1) 3 opened (asks (pos 1) 1 ∷ asks (pos 1) 2 ∷ [])
      (refl, (refl, tt))

abbrev channel : ℤ → String → ℤ → Channel
channel id models weight = record {
  id = id;
  name = "";
  provider = "openai";
  base_url = "https://api.example.com";
  models = models;
  supports_async = false;
  weight = some weight;
}

abbrev first : Channel
first = channel (pos 1) "gpt-4o, o3" (pos 3)

abbrev second : Channel
second = channel (pos 2) "claude" (pos 2)

abbrev third : Channel
third = channel (pos 3) "" (pos 2)

abbrev manager : Manager
manager = record { channels = first ∷ second ∷ third ∷ []; index = 0; breakers = opened }

abbrev distinct : HaveDistinctIds manager.channels
distinct = ((refl, (refl, tt)), ((refl, tt), (tt, tt)))

abbrev wanted : String → List ℤ → Wanted
wanted model excluded = record {
  model_name = model;
  require_async = false;
  required = no_capabilities;
  excluded = excluded;
}

abbrev registry : Registry
registry = []

get_next_channel-Fits_example :
    In third manager.channels × Fits (wanted "gpt-4o" []) registry 1 opened third
unfolding get_next_channel is_circuit_blocked supports words_from replace_all same_codes
get_next_channel-Fits_example =
    get_next_channel-Fits registry (wanted "gpt-4o" []) 1 manager
      (get_next_channel registry (wanted "gpt-4o" []) 1 manager).1 third distinct refl

get_next_channel_fails_example :
    All (λ ch. ¬ Fits (wanted "gpt-4o" (pos 3 ∷ [])) registry 1 opened ch) manager.channels
unfolding get_next_channel is_circuit_blocked supports words_from replace_all same_codes
get_next_channel_fails_example =
    get_next_channel_fails registry (wanted "gpt-4o" (pos 3 ∷ [])) 1 manager
      (get_next_channel registry (wanted "gpt-4o" (pos 3 ∷ [])) 1 manager).1
      (no_channel_supports "gpt-4o") distinct refl

pick_share_example :
    pick_weighted_channel first (second ∷ third ∷ []) 3 ≡ (second, (3 + 1) % 2 ^ 64)
unfolding total_weight read_channel_weight
pick_share_example =
    pick_share first second (third ∷ []) (first ∷ []) (third ∷ []) second 3 refl (omega arith)
      (omega arith)

-- Channel 1 alone, whose cooldown is over, is asked for a model that it does not have.
abbrev lone_manager : Manager
lone_manager = record manager { channels = first ∷ [] }

probe_lost_example :
    ((get_next_channel registry (wanted "claude" []) 40000000000 lone_manager).0
      ≡ err (no_channel_supports "claude"))
    × ((is_circuit_blocked (pos 1) 99000000000 (
          run
            (asks (pos 1) 90000000000 ∷ [])
            (get_next_channel registry (wanted "claude" []) 40000000000 lone_manager).1.breakers)).0
        ≡ true)
unfolding is_excluded is_suitable supports words_from replace_all same_codes
probe_lost_example =
    probe_lost registry (wanted "claude" []) 40000000000 99000000000 lone_manager first open_breaker
      (asks (pos 1) 90000000000 ∷ []) refl refl refl refl refl (omega arith) (refl, tt)
