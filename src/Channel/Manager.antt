-- ===== src/Channel/Manager.antt =====
-- The pool of channels: internal/channel/manager.go, with db.Channel of internal/db/models.go.
-- A call of getNextChannel is one step on the breakers and on the round-robin index. The
-- registry of providers is a parameter of the calls; the log lines are left out.
pub mod Picking
pub mod Selection
pub mod Weights
pub mod Probing
use ainode.Prelude.{
  ℕ, ◌+◌, ◌%◌, ◌^◌, ◌<◌, String, Bool, true, false, not, ◌&&◌, ◌||◌, if◌then◌else◌, Option, none,
  some, List, [], ◌∷◌, map, ltb, ◌==◌, length, get_elem?, str_eq, Result, ok, err,
}
use ainode.Prelude.Int.{ℤ, pos, ltb_ℤ, eqb_ℤ, pos_part}
use ainode.Text.{codes, same_codes, replace_all, fields}
use ainode.Provider.{ProviderCapabilities, no_capabilities, supports, Registry, get_provider}
use ainode.Channel.Breaker.{Breakers, is_circuit_blocked}

-- db.Channel, as far as the manager and the proxy read it; `weight` is a nullable column.
pub record Channel : Type 0 where
  pub id : ℤ
  pub name : String
  pub provider : String
  pub base_url : String
  pub models : String
  pub supports_async : Bool
  pub weight : Option ℤ

pub data ManagerError : Type 0 where
  no_active_channels : ManagerError
  no_channel_supports : String → ManagerError
  load_failed : ManagerError

pub record Manager : Type 0 where
  pub channels : List Channel
  pub index : ℕ
  pub breakers : Breakers

-- LoadChannels: the rows that the query returns, or its error.
unfoldable pub load_channels : Option (List Channel) → Manager → Result ManagerError Manager
load_channels none m = err load_failed
load_channels (some rows) m = ok (record m { channels = rows })

unfoldable pub has_model : List ℕ → List (List ℕ) → Bool
has_model target [] = false
has_model target (m ∷ ms) = same_codes m target || has_model target ms

-- containsModel: `*`, or one of the names between commas and blanks.
unfoldable pub contains_model : String → String → Bool
unfolding has_model
contains_model models target =
    str_eq models "*" || has_model (codes target) (fields (replace_all 44 32 (codes models)))

unfoldable pub read_channel_weight : Option ℤ → ℕ
read_channel_weight none = 1
read_channel_weight (some w) = if ltb_ℤ (pos 0) w then pos_part w else 1

abbrev pub channel_weight : Channel → ℕ
channel_weight ch = read_channel_weight ch.weight

unfoldable pub total_weight : List Channel → ℕ
total_weight [] = 0
total_weight (ch ∷ chs) = channel_weight ch + total_weight chs

-- The loop over the weights: the first channel whose running sum is above the target.
unfoldable pub walk_weights : ℕ → ℕ → List Channel → Option Channel
walk_weights target current [] = none
walk_weights target current (ch ∷ chs) =
    if ltb target (current + channel_weight ch)
    then some ch
    else walk_weights target (current + channel_weight ch) chs

abbrev pub or_channel : Option Channel → Channel → Channel
or_channel none ch = ch
or_channel (some ch) ch' = ch

unfoldable pub last_channel : Channel → List Channel → Channel
last_channel ch [] = ch
last_channel ch (ch' ∷ chs) = last_channel ch' chs

-- pickWeightedChannel on the channels `ch ∷ chs`; the answer, and the index it leaves.
unfoldable pub pick_weighted_channel : Channel → List Channel → ℕ → Channel × ℕ
pick_weighted_channel ch [] index = (ch, index)
pick_weighted_channel ch (ch' ∷ chs) index =
    let all = ch ∷ ch' ∷ chs in
    let index' = (index + 1) % 2 ^ 64 in
    if total_weight all == 0
    then (or_channel (get_elem? all (index' % length all)) ch, index')
    else (
      or_channel (walk_weights (index' % total_weight all) 0 all) (last_channel ch' chs),
      index',
    )

-- What a call asks of a channel.
pub record Wanted : Type 0 where
  pub model_name : String
  pub require_async : Bool
  pub required : ProviderCapabilities
  pub excluded : List ℤ

unfoldable pub is_excluded : ℤ → List ℤ → Bool
is_excluded id [] = false
is_excluded id (j ∷ js) = eqb_ℤ j id || is_excluded id js

-- The tests after the breaker's.
unfoldable pub is_suitable : Registry → Wanted → Channel → Bool
unfolding contains_model
is_suitable registry w ch =
    not (w.require_async && not ch.supports_async)
    && supports (get_provider ch.provider registry).capabilities w.required
    && (str_eq ch.models "" || contains_model ch.models w.model_name)

abbrev pub keep_if : Bool → Channel → List Channel → List Channel
keep_if true ch chs = ch ∷ chs
keep_if false ch chs = chs

-- The loop over the channels: those that pass, and the breakers that the asks leave.
unfoldable pub available_channels :
    Registry → Wanted → ℕ → List Channel → Breakers → List Channel × Breakers
unfolding is_excluded is_suitable
available_channels registry w now [] bs = ([], bs)
available_channels registry w now (ch ∷ chs) bs =
    let asked = is_circuit_blocked ch.id now bs in
    let rest = available_channels registry w now chs asked.1 in
    let skipped = available_channels registry w now chs bs in
    if is_excluded ch.id w.excluded
    then skipped
    else (keep_if (not asked.0 && is_suitable registry w ch) ch rest.0, rest.1)

-- The end of getNextChannel: no channel is left, or one is picked.
unfoldable pub pick_among :
    Wanted → Manager → List Channel → Breakers → Result ManagerError Channel × Manager
unfolding pick_weighted_channel
pick_among w m [] bs = (err (no_channel_supports w.model_name), record m { breakers = bs })
pick_among w m (ch ∷ chs) bs =
    let picked = pick_weighted_channel ch chs m.index in
    (ok picked.0, record m { breakers = bs; index = picked.1 })

-- getNextChannel on the channels of the pool.
unfoldable pub next_among :
    Registry → Wanted → ℕ → Manager → List Channel → Result ManagerError Channel × Manager
unfolding available_channels pick_among
next_among registry w now m [] = (err no_active_channels, m)
next_among registry w now m (ch ∷ chs) =
    let found = available_channels registry w now (ch ∷ chs) m.breakers in
    pick_among w m found.0 found.1

unfoldable pub get_next_channel :
    Registry → Wanted → ℕ → Manager → Result ManagerError Channel × Manager
unfolding next_among
get_next_channel registry w now m = next_among registry w now m m.channels

abbrev pub get_next_channel_excluding :
    Registry → String → List ℤ → ℕ → Manager → Result ManagerError Channel × Manager
get_next_channel_excluding registry model excluded = get_next_channel registry (record {
  model_name = model;
  require_async = false;
  required = no_capabilities;
  excluded = excluded;
})

abbrev pub get_next_channel_for_capabilities_excluding :
    Registry
    → String
    → ProviderCapabilities
    → List ℤ
    → ℕ
    → Manager
    → Result ManagerError Channel × Manager
get_next_channel_for_capabilities_excluding registry model required excluded =
    get_next_channel registry (record {
      model_name = model;
      require_async = required.async_task;
      required = required;
      excluded = excluded;
    })
