-- ===== src/Provider.antt =====
-- The providers: internal/provider/contract.go (capabilities), registry.go (the registry of
-- drivers) and provider_static.go. A driver is what the rest of the model asks it for: its name
-- and its capabilities. The registry's lock makes each call one step.
use ainode.Prelude.{
  ℕ, String, Bool, true, false, not, ◌&&◌, ◌||◌, if◌then◌else◌, Option, none, some, List, [], ◌∷◌,
}
use ainode.Text.{codes, same_codes, trim_space, to_lower}

pub record ProviderCapabilities : Type 0 where
  pub chat : Bool
  pub stream : Bool
  pub vision : Bool
  pub image : Bool
  pub video : Bool
  pub async_task : Bool
  pub cancel_task : Bool

abbrev pub no_capabilities : ProviderCapabilities
no_capabilities = record {
  chat = false;
  stream = false;
  vision = false;
  image = false;
  video = false;
  async_task = false;
  cancel_task = false;
}

-- ProviderCapabilities.Supports: a chain of early returns.
unfoldable pub supports : ProviderCapabilities → ProviderCapabilities → Bool
supports c required =
    if required.chat && not c.chat
    then false
    else if required.stream && not c.stream
    then false
    else if required.vision && not c.vision
    then false
    else if required.image && not c.image
    then false
    else if required.video && not c.video
    then false
    else if required.async_task && not c.async_task
    then false
    else if required.cancel_task && not c.cancel_task
    then false
    else true

-- A driver, as its Name() and its Capabilities() answer.
pub record ProviderDriver : Type 0 where
  pub name : String
  pub capabilities : ProviderCapabilities

-- The map providerRegistry, by the codes of a normalized name.
abbrev pub Registry : Type 0
Registry = List (List ℕ × ProviderDriver)

unfoldable pub lookup_driver : List ℕ → Registry → Option ProviderDriver
lookup_driver k [] = none
lookup_driver k ((j, d) ∷ r) = if same_codes j k then some d else lookup_driver k r

unfoldable pub is_openai : List ℕ → Bool
is_openai n = same_codes n [] || same_codes n (codes "openai") || same_codes n (codes "custom")

unfoldable pub normalize_provider_name : String → List ℕ
unfolding is_openai
normalize_provider_name provider =
    let n = to_lower (trim_space (codes provider)) in if is_openai n then codes "openai" else n

-- The entry replaces the one of the same name: `lookup_driver` reads the first.
unfoldable pub register_provider : ProviderDriver → Registry → Registry
unfolding normalize_provider_name
register_provider driver r =
    let name = normalize_provider_name driver.name in
    if same_codes name [] then r else (name, driver) ∷ r

abbrev pub driver_or : Option ProviderDriver → ProviderDriver → ProviderDriver
driver_or none d = d
driver_or (some d) e = d

unfoldable pub get_provider : String → Registry → ProviderDriver
unfolding normalize_provider_name lookup_driver
get_provider provider r = driver_or (lookup_driver (normalize_provider_name provider) r) (
    driver_or (lookup_driver (codes "openai") r)
      (record { name = "openai"; capabilities = no_capabilities }))
