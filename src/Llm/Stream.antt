-- ===== src/Llm/Stream.antt =====
-- The streamed answers: the lines of a response, read as events, as chunks and an end. A generator is
-- the list of the chunks it yields, with how it ends: by itself, by an `LLMError`, or by an exception
-- of another kind, which `crashed` stands for. `json.loads` is an argument.
use edtech_back.Base.{
  ℕ, zero, suc, Bool, true, false, not, ◌&&◌, ◌||◌, Option, none, some, List, [], ◌∷◌, Text, codes,
  text_eq, strip, take, if◌then◌else◌,
}
use edtech_back.Llm.{Kind, unavailable, raise_for_status, TransportFailure, transport_error}
use edtech_back.Llm.Json.{Json, is_truthy, is_dict, at_key, at_start, or_null, get_field, is_string}
pub mod Faults

pub data Ending : Type 0 where
  finished crashed : Ending
  failed : Kind → Ending

pub record Stream : Type 0 where
  pub chunks : List Json
  pub ends : Ending

abbrev pub stops : Ending → Stream
stops e = record { chunks = []; ends = e }

abbrev pub yields : Json → Stream → Stream
yields chunk s = record { chunks = chunk ∷ s.chunks; ends = s.ends }

-- what the body of a loop does with the object of a line
pub data Event : Type 0 where
  skip : Event
  chunk : Json → Event
  stop : Ending → Event

-- `_raise_for_stream_error`: whether it raises
unfoldable pub is_stream_error : Json → Bool
is_stream_error obj =
    is_dict obj
    && (is_error (or_null (at_key (codes "error") obj))
        || is_string (codes "error") (or_null (at_key (codes "type") obj)))
  where
    is_error : Json → Bool
    is_error Json.null = false
    is_error _ = true

-- `if delta: yield delta`
unfoldable pub yield_truthy : Json → Event
yield_truthy j = if is_truthy j then chunk j else skip

abbrev pub yield_found : Option Json → Event
yield_found none = skip
yield_found (some j) = yield_truthy j

infixl 5 ◌>>=◌
abbrev pub ◌>>=◌ : Option Json → (Json → Option Json) → Option Json
none >>= f = none
some a >>= f = f a

-- `obj["choices"][0]["delta"].get("content")`
unfoldable pub delta_content : Json → Option Json
delta_content obj =
    at_key (codes "choices") obj
    >>= at_start
    >>= at_key (codes "delta")
    >>= get_field (codes "content")

-- the loop of `_stream_completions`
unfoldable pub completion_event : Json → Event
completion_event obj =
    if is_stream_error obj then stop (failed unavailable) else yield_found (delta_content obj)

-- the loop of `_stream_responses`, on the type of an object and the object
unfoldable pub response_event : Json → Event
response_event obj = elim (get_field (codes "type") obj) [
  | none ↦ stop crashed
  | some kind ↦
      if is_string (codes "response.output_text.delta") kind
      then yield_found (get_field (codes "delta") obj)
      else if is_string (codes "error") kind || is_string (codes "response.failed") kind
      then stop (failed unavailable)
      else skip
]

-- `obj.get("delta", {}).get("text")`
unfoldable pub delta_text : Json → Event
delta_text obj = elim (at_key (codes "delta") obj) [
  | none ↦ skip
  | some delta ↦ elim (get_field (codes "text") delta) [
    | none ↦ stop crashed
    | some text ↦ yield_truthy text
  ]
]

-- the loop of `_stream_messages`
unfoldable pub message_event : Json → Event
message_event obj =
    if is_stream_error obj then stop (failed unavailable) else elim (get_field (codes "type") obj) [
      | none ↦ stop crashed
      | some kind ↦ if is_string (codes "content_block_delta") kind then delta_text obj else skip
    ]

-- `line[n:]` if the line starts with the first `n` characters of a prefix
unfoldable pub drop_prefix : Text → Text → Option Text
drop_prefix [] s = some s
drop_prefix (c ∷ p) [] = none
drop_prefix (c ∷ p) (d ∷ s) =
    let rest = drop_prefix p s in if text_eq (c ∷ []) (d ∷ []) then rest else none

-- `line[6:].strip()` of a line that is read
unfoldable pub data_of : Text → Option Text
data_of line = elim (drop_prefix (codes "data: ") line) [
  | none ↦ none
  | some rest ↦ some (strip rest)
]

-- how the lines of a response come to their end
abbrev pub ending_of : Option TransportFailure → Ending
ending_of none = finished
ending_of (some failure) = failed (transport_error failure)

module _ (json_loads : Text → Option Json) where
  -- what a line is to a loop that stops at a mark, or at none
  unfoldable pub line_event : Bool → (Json → Event) → Text → Event
  line_event marked event line = elim (data_of line) [
    | none ↦ skip
    | some data_text ↦
        if marked && text_eq data_text (codes "[DONE]")
        then stop finished
        else elim (json_loads data_text) [ none ↦ skip | some obj ↦ event obj ]
  ]

-- `for line in resp.iter_lines()`
unfoldable pub read_lines : (Text → Event) → List Text → Option TransportFailure → Stream
read_lines event [] failure = stops (ending_of failure)
read_lines event (line ∷ lines) failure =
    let rest = read_lines event lines failure in
    elim (event line) [ skip ↦ rest | chunk j ↦ yields j rest | stop e ↦ stops e ]

-- what the network gives: no response, or a status and lines, which may break off
pub data Fetched : Type 0 where
  no_response : TransportFailure → Fetched
  response : ℕ → List Text → Option TransportFailure → Fetched

module _ (json_loads : Text → Option Json) where
  unfoldable pub stream_with : Bool → (Json → Event) → Fetched → Stream
  stream_with marked event (no_response failure) = stops (failed (transport_error failure))
  stream_with marked event (response code lines failure) =
      let read = read_lines (line_event json_loads marked event) lines failure in
      elim (raise_for_status code) [ some kind ↦ stops (failed kind) | none ↦ read ]

  -- the three generators: `_stream_completions`, `_stream_responses` and `_stream_messages`, as
  -- `chat_stream` wraps them
  unfoldable pub stream_completions : Fetched → Stream
  stream_completions = stream_with true completion_event

  unfoldable pub stream_responses : Fetched → Stream
  stream_responses = stream_with true response_event

  unfoldable pub stream_messages : Fetched → Stream
  stream_messages = stream_with false message_event
