-- ===== src/Llm/Providers.antt =====
-- Which providers the chain consists of: `provider_chain_names`, `_build` and `get_provider`. A
-- provider is its name here, and an API key is whether it is set.
use edtech_back.Base.{
  ℕ, Bool, true, false, not, ◌&&◌, Option, none, some, List, [], ◌∷◌, ◌++◌, Text, codes, text_eq,
  contains_text, nonempty, strip, select, map, if◌then◌else◌, ◌==◌,
}
pub mod Configured

-- the settings that the chain is built from
pub record LlmSettings : Type 0 where
  pub ai_provider : Text
  pub ai_fallback_providers : Text
  pub groq_api_key : Text
  pub xai_api_key : Text
  pub openai_api_key : Text
  pub anthropic_api_key : Text

-- `text.split(",")`: the first part, and the others
unfoldable pub split_from : Text → Text × List Text
split_from [] = ([], [])
split_from (c ∷ s) =
    let rest = split_from s in if c == b',' then ([], rest.0 ∷ rest.1) else (c ∷ rest.0, rest.1)

unfoldable pub split_commas : Text → List Text
split_commas s = (split_from s).0 ∷ (split_from s).1

-- `[n.strip() for n in ... if n.strip()]`
unfoldable pub fallback_names : Text → List Text
fallback_names s = select nonempty (map strip (split_commas s))

-- the loop that keeps the first of equal names
unfoldable pub ordered_from : List Text → List Text → List Text
ordered_from seen [] = []
ordered_from seen (n ∷ ns) =
    let skipped = ordered_from seen ns in
    let kept = ordered_from (n ∷ seen) ns in if contains_text n seen then skipped else n ∷ kept

unfoldable pub provider_chain_names : LlmSettings → List Text
provider_chain_names settings =
    ordered_from [] (settings.ai_provider ∷ fallback_names settings.ai_fallback_providers)

-- `_build`: whether the name is that of a provider whose key is configured
unfoldable pub is_configured : LlmSettings → Text → Bool
is_configured settings name =
    if text_eq name (codes "groq") && nonempty settings.groq_api_key
    then true
    else if text_eq name (codes "grok") && nonempty settings.xai_api_key
    then true
    else if text_eq name (codes "openai") && nonempty settings.openai_api_key
    then true
    else if text_eq name (codes "anthropic") && nonempty settings.anthropic_api_key
    then true
    else text_eq name (codes "mock")

-- `get_provider`: the names of the providers of the chain
unfoldable pub get_provider : LlmSettings → List Text
get_provider settings =
    let providers = select (is_configured settings) (provider_chain_names settings) in
    if nonempty providers then providers else codes "mock" ∷ []
