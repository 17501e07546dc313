-- ===== src/Llm/Chain.antt =====
-- `ProviderChain`: the providers in their order, each asked when the one before it fails. The answer
-- comes with the provider that is credited with it (`last_used`), if one is. A stream is committed to
-- with its first chunk, and a stream without any is a failure.
use edtech_back.Base.{
  ℕ, Bool, true, false, Option, none, some, List, [], ◌∷◌, Text, codes, or_default, if◌then◌else◌,
}
use edtech_back.Llm.{Kind, unavailable, is_retryable}
use edtech_back.Llm.Json.{Json}
use edtech_back.Llm.Stream.{Ending, finished, crashed, failed, Stream, stops}
pub mod First

-- what `chat` of a provider gives
pub data Reply : Type 0 where
  answer : Text → Reply
  refused : Kind → Reply

-- a provider, with what it replies to the question at hand
pub record Provider : Type 0 where
  pub name : Text
  pub model : Option Text
  pub supports_vision : Bool
  pub chat : Reply
  pub chat_stream : Stream
  pub chat_stream_vision : Stream

-- the loop of `ProviderChain.chat`, with the failure before
unfoldable pub chat_from : Option Kind → List Provider → Reply × Option Provider
chat_from last [] = (refused (or_default last unavailable), none)
chat_from last (p ∷ ps) = elim p.chat [
  | answer text ↦ (answer text, some p)
  | refused kind ↦ if is_retryable kind then chat_from (some kind) ps else (refused kind, none)
]

unfoldable pub chain_chat : List Provider → Reply × Option Provider
chain_chat providers = chat_from none providers

-- `next(stream, None)`: whether there is a first chunk, and the failure if there is none
pub data Start : Type 0 where
  started : Start
  failed_start : Kind → Start
  crashed_start : Start

unfoldable pub start_of : Stream → Start
start_of s = elim s.chunks [
  | chunk ∷ chunks ↦ started
  | [] ↦ elim s.ends [
    | finished ↦ failed_start unavailable
    | failed kind ↦ failed_start kind
    | crashed ↦ crashed_start
  ]
]

-- the loop of `ProviderChain.chat_stream`
unfoldable pub stream_from : Option Kind → List Provider → Stream × Option Provider
stream_from last [] = (stops (failed (or_default last unavailable)), none)
stream_from last (p ∷ ps) = elim (start_of p.chat_stream) [
  | started ↦ (p.chat_stream, some p)
  | failed_start kind ↦
      if is_retryable kind then stream_from (some kind) ps else (stops (failed kind), none)
  | crashed_start ↦ (stops crashed, none)
]

unfoldable pub chain_stream : List Provider → Stream × Option Provider
chain_stream providers = stream_from none providers

-- `ProviderChain.chat_stream_vision` of the primary
unfoldable pub chain_stream_vision : Provider → Stream × Option Provider
chain_stream_vision primary = elim (start_of primary.chat_stream_vision) [
  | started ↦ (primary.chat_stream_vision, some primary)
  | failed_start kind ↦ (stops (failed kind), none)
  | crashed_start ↦ (stops crashed, none)
]
