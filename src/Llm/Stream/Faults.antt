-- ===== src/Llm/Stream/Faults.antt =====
-- The streamed answers of the chat-completions kind, and the failures that are reported inside
-- them.
use edtech_back.Base.{
  ℕ, ◌≡◌, refl, Bool, true, false, not, ◌&&◌, ◌||◌, Option, none, some, List, [], ◌∷◌, Text, codes,
  text_eq, all, ◌⊎◌, arith, Bool-cases, Option-cases, inl, inr,
}
use edtech_back.Llm.{unavailable, raise_for_status, TransportFailure}
use edtech_back.Llm.Json.{Json, is_truthy}
use edtech_back.Llm.Stream.{
  Ending, crashed, failed, skip, chunk, is_stream_error, yield_truthy, yield_found, delta_content,
  completion_event, data_of, line_event, read_lines, Fetched, no_response, response, stream_with,
  stream_completions,
}

yield_found-cases :
    (found : Option Json)
    → (yield_found found ≡ skip)
      ⊎ ((j : Json) × (is_truthy j ≡ true) × (yield_found found ≡ chunk j))
unfolding yield_truthy
yield_found-cases none = inl refl
yield_found-cases (some j) = elim (Bool-cases (is_truthy j)) [
  | inl full ↦ inr (j, full, rw full refl)
  | inr empty ↦ inl (rw empty refl)
]

abbrev pub is_crashed : Ending → Bool
is_crashed crashed = true
is_crashed _ = false

module _ (json_loads : Text → Option Json) where
  -- a line that is the mark of the end
  unfoldable pub is_done : Text → Bool
  is_done line = elim (data_of line) [ none ↦ false | some d ↦ text_eq d (codes "[DONE]") ]

  -- a line whose object reports a failure
  unfoldable pub is_fault : Text → Bool
  is_fault line = elim (data_of line) [
    | none ↦ false
    | some d ↦ elim (json_loads d) [ none ↦ false | some obj ↦ is_stream_error obj ]
  ]

  -- a failure is reported before the mark of the end
  unfoldable pub has_fault : List Text → Bool
  has_fault [] = false
  has_fault (line ∷ lines) = not (is_done line) && (is_fault line || has_fault lines)

  module _ (failure : Option TransportFailure) where
    read_lines-fault :
        (lines : List Text)
        → has_fault lines ≡ true
        → (read_lines (line_event json_loads true completion_event) lines failure).ends
          ≡ failed unavailable
    unfolding has_fault is_fault is_done read_lines line_event completion_event yield_truthy
    read_lines-fault [] h = cc
    read_lines-fault (line ∷ lines) h = elim (Option-cases (data_of line)) [
      | inl none_there ↦ ground (arith, read_lines-fault lines)
      | inr (d, e) ↦ elim (Bool-cases (text_eq d (codes "[DONE]"))) [
        | inl mark ↦ absurd (ground arith)
        | inr open_line ↦ elim (Option-cases (json_loads d)) [
          | inl unread ↦ ground (arith, read_lines-fault lines)
          | inr (obj, r) ↦ elim (Bool-cases (is_stream_error obj)) [
            | inl report ↦ ground arith
            | inr plain ↦
                let rest = read_lines-fault lines (ground arith) in
                elim (yield_found-cases (delta_content obj)) [
                  | inl nothing ↦ ground arith
                  | inr (j, full, yielded) ↦ ground arith
                ]
          ]
        ]
      ]
    ]

    read_lines-clean :
        (lines : List Text)
        → let read = read_lines (line_event json_loads true completion_event) lines failure in
          (is_crashed read.ends ≡ false) × (all is_truthy read.chunks ≡ true)
    unfolding read_lines line_event completion_event all
    read_lines-clean [] = elim (Option-cases failure) [
      | inl whole ↦ rw whole (refl, refl)
      | inr (cut, e) ↦ rw e (refl, refl)
    ]
    read_lines-clean (line ∷ lines) =
        let rest = read_lines-clean lines in
        elim (Option-cases (data_of line)) [
          | inl none_there ↦ (ground arith, ground arith)
          | inr (d, e) ↦ elim (Bool-cases (text_eq d (codes "[DONE]"))) [
            | inl mark ↦ (ground arith, ground arith)
            | inr open_line ↦ elim (Option-cases (json_loads d)) [
              | inl unread ↦ (ground arith, ground arith)
              | inr (obj, r) ↦ elim (Bool-cases (is_stream_error obj)) [
                | inl report ↦ (ground arith, ground arith)
                | inr plain ↦ elim (yield_found-cases (delta_content obj)) [
                  | inl nothing ↦ (ground arith, ground arith)
                  | inr (j, full, yielded) ↦ (ground arith, ground arith)
                ]
              ]
            ]
          ]
        ]

  -- An answer of the chat completions in whose lines, before the mark of the end, the provider
  -- reports a failure ends as unavailable, whatever came before and however the connection ends.
  pub stream_completions-fault :
      (code : ℕ) (lines : List Text) (failure : Option TransportFailure)
      → raise_for_status code ≡ none
      → has_fault lines ≡ true
      → (stream_completions json_loads (response code lines failure)).ends ≡ failed unavailable
  unfolding stream_completions stream_with
  stream_completions-fault code lines failure accepted fault =
      let read = read_lines-fault failure lines fault in ground arith

  -- Whatever the network gives, a streamed answer of the chat completions ends by itself or by an
  -- error that the chain of providers handles, and every chunk of it has content.
  pub stream_completions-clean :
      (fetched : Fetched)
      → (is_crashed (stream_completions json_loads fetched).ends ≡ false)
        × (all is_truthy (stream_completions json_loads fetched).chunks ≡ true)
  unfolding stream_completions stream_with all
  stream_completions-clean (no_response failure) = (refl, refl)
  stream_completions-clean (response code lines failure) =
      elim (Option-cases (raise_for_status code)) [
        | inl accepted ↦ (let c = read_lines-clean failure lines in (ground arith, ground arith))
        | inr (kind, refused) ↦ (ground arith, ground arith)
      ]
