-- ===== src/Llm/Providers/Configured.antt =====
-- `provider_chain_names` of app/services/llm.py, and the names it gives.
use edtech_back.Base.{
  ◌≡◌, refl, Bool, true, false, not, ◌&&◌, List, [], ◌∷◌, Text, codes, text_eq, text_eq_iff,
  contains_text, nonempty, select, all, arith, Bool-cases, inl, inr,
}
use edtech_back.Llm.Providers.{
  LlmSettings, fallback_names, ordered_from, provider_chain_names, is_configured, get_provider,
}

-- no text twice
pub all_different : List Text → Bool
all_different [] = true
all_different (n ∷ ns) = not (contains_text n ns) && all_different ns

ordered_from-contains :
    (seen ns : List Text) (n : Text)
    → contains_text n (ordered_from seen ns) ≡ (contains_text n ns && not (contains_text n seen))
unfolding ordered_from contains_text
ordered_from-contains seen [] n = refl
ordered_from-contains seen (m ∷ ms) n =
    let skipped = ordered_from-contains seen ms n in
    let kept = ordered_from-contains (m ∷ seen) ms n in
    ground (arith, text_eq_iff n m, text_eq_iff m n)

ordered_from-all_different : (seen ns : List Text) → all_different (ordered_from seen ns) ≡ true
unfolding ordered_from all_different contains_text
ordered_from-all_different seen [] = refl
ordered_from-all_different seen (m ∷ ms) =
    let skipped = ordered_from-all_different seen ms in
    let kept = ordered_from-all_different (m ∷ seen) ms in
    let new = ordered_from-contains (m ∷ seen) ms m in ground (arith, text_eq_iff m m)

select-contains :
    (p : Text → Bool) (n : Text) (ns : List Text)
    → contains_text n (select p ns) ≡ (contains_text n ns && p n)
unfolding select contains_text
select-contains p n [] = refl
select-contains p n (m ∷ ms) = ground (arith, text_eq_iff n m, select-contains p n ms)

select-all_different :
    (p : Text → Bool) (ns : List Text)
    → all_different ns ≡ true
    → all_different (select p ns) ≡ true
unfolding select all_different
select-all_different p [] h = refl
select-all_different p (n ∷ ns) h =
    ground (arith, select-contains p n ns, select-all_different p ns)

select-all : (p : Text → Bool) (ns : List Text) → all p (select p ns) ≡ true
unfolding select all
select-all p [] = refl
select-all p (n ∷ ns) = ground (arith, select-all p ns)

contains_text-empty : (n : Text) → contains_text n [] ≡ false
unfolding contains_text
contains_text-empty n = refl

nonempty-contains : (n : Text) (ns : List Text) → nonempty ns ≡ false → contains_text n ns ≡ false
unfolding contains_text
nonempty-contains n [] h = refl
nonempty-contains n (m ∷ ms) h = cc

mock_alone :
    (settings : LlmSettings)
    → (all_different (codes "mock" ∷ []) ≡ true)
      × (all (is_configured settings) (codes "mock" ∷ []) ≡ true)
unfolding all_different contains_text all is_configured text_eq
mock_alone settings = (refl, refl)

-- Whatever the settings, the chain has a provider, has none twice, and has none without its key; and
-- a name of the setting, primary or fallback, whose key is configured is in it.
pub get_provider-is_configured :
    (settings : LlmSettings) (name : Text)
    → let chain = get_provider settings in
      (nonempty chain ≡ true)
      × (all_different chain ≡ true)
      × (all (is_configured settings) chain ≡ true)
      × ((is_configured settings name
            && contains_text name
                (settings.ai_provider ∷ fallback_names settings.ai_fallback_providers)
            && not (contains_text name chain))
          ≡ false)
unfolding get_provider provider_chain_names
get_provider-is_configured settings name =
    let names = settings.ai_provider ∷ fallback_names settings.ai_fallback_providers in
    let chosen = select (is_configured settings) (ordered_from [] names) in
    let once =
      select-all_different (is_configured settings) (ordered_from [] names)
        (ordered_from-all_different [] names) in
    let usable = select-all (is_configured settings) (ordered_from [] names) in
    let there : contains_text name chosen ≡ (
        (contains_text name names && not (contains_text name [])) && is_configured settings name) =
      rw
        (
          select-contains (is_configured settings) name (ordered_from [] names),
          ordered_from-contains [] names name,
        )
        refl in
    let unseen = contains_text-empty name in
    elim (Bool-cases (nonempty chosen)) [
      | inl built ↦ rw built (built, once, usable, ground arith)
      | inr bare ↦
          let absent = nonempty-contains name chosen bare in
          rw bare (refl, (mock_alone settings).0, (mock_alone settings).1, ground arith)
    ]
