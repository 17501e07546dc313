-- ===== src/Llm.antt =====
-- app/services/llm.py: the providers of the assistant, and the chain that asks them in order. What a
-- provider sends over the network is an argument; the failures of a call are values.
use edtech_back.Base.{
  ℕ, Bool, true, false, ◌||◌, Option, none, some, List, [], ◌∷◌, Text, codes, contains_text, leb,
  ◌==◌, if◌then◌else◌,
}
pub mod Json
pub mod Stream
pub mod Reply
pub mod Chain
pub mod Providers

-- the kind of an `LLMError`
abbrev pub Kind : Type 0
Kind = Text

abbrev pub unavailable : Kind
unavailable = codes "unavailable"

-- `_raise_for_status`: the kind that is raised, if one is
unfoldable pub raise_for_status : ℕ → Option Kind
raise_for_status code =
    if code == 401 || code == 403
    then some (codes "auth")
    else if code == 429
    then some (codes "rate_limit")
    else if leb 500 code
    then some unavailable
    else if code == 400 || code == 422
    then some (codes "bad_request")
    else if leb 400 code
    then some unavailable
    else none

-- `RETRYABLE_KINDS`
abbrev pub retryable_kinds : List Kind
retryable_kinds =
    codes "rate_limit"
    ∷ codes "quota"
    ∷ codes "timeout"
    ∷ codes "unavailable"
    ∷ codes "auth"
    ∷ codes "bad_request"
    ∷ []

unfoldable pub is_retryable : Kind → Bool
is_retryable kind = contains_text kind retryable_kinds

-- a failure of the transport: an `httpx.TimeoutException`, or another `httpx.HTTPError`
pub data TransportFailure : Type 0 where
  timed_out broke : TransportFailure

-- `_transport_error`
abbrev pub transport_error : TransportFailure → Kind
transport_error TransportFailure.timed_out = codes "timeout"
transport_error TransportFailure.broke = unavailable
