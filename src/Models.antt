-- ===== src/Models.antt =====
-- The prices of the models: internal/config/model_manager.go, with the row of internal/db/models.go
-- and ParseRequestPricingConfig of internal/utils/model_pricing.go, whose number is a field here. A
-- method under the manager's lock is one step; what the database answers is an argument.
use ainode.Prelude.{
  Bool, true, false, Option, none, some, String, str_eq, if◌then◌else◌, List, [], ◌∷◌,
}
use ainode.Prelude.Int.{ℤ}
use ainode.Proxy.Pricing.{Floats}

module _ (F : Floats) where
  pub record Model : Type 0 where
    pub model_name : String
    pub input_price_cents : ℤ
    pub output_price_cents : ℤ
    pub cache_hit_price_cents : ℤ
    pub cache_miss_price_cents : ℤ
    pub multiplier : F.Float
    pub billing_policy : String
    pub modality : String
    pub pricing_mode : String
    pub request_price_cents : ℤ

  -- map[string]db.Model, the latest entry first.
  abbrev pub ModelManager : Type 0
  ModelManager = List (String × Model)

  unfoldable pub cached_model : String → ModelManager → Option Model
  cached_model name [] = none
  cached_model name ((k, m) ∷ ms) = if str_eq k name then some m else cached_model name ms

  -- `row` is the answer of GetModelByName.
  unfoldable pub load_model : Option Model → String → ModelManager → Option Model × ModelManager
  load_model none name m = (none, m)
  load_model (some x) name m = (some x, (name, x) ∷ m)

  -- The rows of ListActiveModels, in order; a later row of the same name wins.
  unfoldable pub new_models : List Model → ModelManager → ModelManager
  new_models [] m = m
  new_models (x ∷ xs) m = new_models xs ((x.model_name, x) ∷ m)

  unfoldable pub load_all_models : Option (List Model) → ModelManager → Bool × ModelManager
  unfolding new_models
  load_all_models none m = (false, m)
  load_all_models (some xs) m = (true, new_models xs [])

  unfoldable pub get_model : Option Model → String → ModelManager → Option Model × ModelManager
  get_model row name m = elim (cached_model name m) [
    | some x ↦ (some x, m)
    | none ↦ load_model row name m
  ]
