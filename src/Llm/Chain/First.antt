-- ===== src/Llm/Chain/First.antt =====
-- `ProviderChain` of app/services/llm.py, and the provider whose answer it gives.
use edtech_back.Base.{
  ◌≡◌, refl, ◌⊎◌, Bool, true, false, Option, none, some, List, [], ◌∷◌, Text, find, all, or_default,
  nonempty, ◌||◌, if◌then◌else◌, Bool-cases, arith, inl, inr,
}
use edtech_back.Llm.{Kind, unavailable, is_retryable}
use edtech_back.Llm.Json.{Json}
use edtech_back.Llm.Stream.{Ending, finished, crashed, failed, Stream, stops}
use edtech_back.Llm.Chain.{
  Reply, answer, refused, Provider, chat_from, chain_chat, started, failed_start, start_of,
  stream_from, chain_stream,
}

-- the provider has an answer
abbrev pub is_answer : Reply → Bool
is_answer (answer text) = true
is_answer (refused kind) = false

-- the provider fails in a way that the chain goes on from
abbrev pub gives_way : Reply → Bool
gives_way (answer text) = true
gives_way (refused kind) = is_retryable kind

-- the failure of the last provider of a list
pub last_kind : Kind → List Provider → Kind
last_kind kind [] = kind
last_kind kind (p ∷ ps) = last_kind (elim p.chat [ answer text ↦ kind | refused k ↦ k ]) ps

-- the reply of the provider that is found, credited to it
abbrev pub credited : Kind → Option Provider → Reply × Option Provider
credited kind none = (refused kind, none)
credited kind (some p) = (p.chat, some p)

Reply-cases : (r : Reply) → ((text : Text) × (r ≡ answer text)) ⊎ ((k : Kind) × (r ≡ refused k))
Reply-cases (answer text) = inl (text, refl)
Reply-cases (refused kind) = inr (kind, refl)

chat_from-first :
    (last : Option Kind) (ps : List Provider)
    → all (λ p. gives_way p.chat) ps ≡ true
    → chat_from last ps
      ≡ credited (last_kind (or_default last unavailable) ps) (find (λ p. is_answer p.chat) ps)
unfolding chat_from last_kind find all
chat_from-first last [] h = refl
chat_from-first last (p ∷ ps) h = elim (Reply-cases p.chat) [
  | inl (text, e) ↦ ground arith
  | inr (kind, e) ↦ let rest = chat_from-first (some kind) ps (ground arith) in ground arith
]

-- The chain answers with the reply of the first provider that has one and credits it with the
-- answer, and if none has, it fails as the last provider did; of the providers, each either answers
-- or fails in a way that the chain goes on from.
pub chain_chat-first :
    (p : Provider) (ps : List Provider)
    → all (λ q. gives_way q.chat) (p ∷ ps) ≡ true
    → chain_chat (p ∷ ps)
      ≡ credited (last_kind unavailable (p ∷ ps)) (find (λ q. is_answer q.chat) (p ∷ ps))
unfolding chain_chat
chain_chat-first p ps h = chat_from-first none (p ∷ ps) h

-- the stream has a chunk
abbrev pub has_chunk : Stream → Bool
has_chunk s = nonempty s.chunks

-- a stream that ends without a chunk is a failure, unavailable if it names none
abbrev pub failure_of : Ending → Kind
failure_of (failed kind) = kind
failure_of _ = unavailable

-- the stream has a chunk, or ends without one in a way that the chain goes on from
abbrev pub ends_retryable : Ending → Bool
ends_retryable finished = is_retryable unavailable
ends_retryable crashed = false
ends_retryable (failed kind) = is_retryable kind

abbrev pub passes_on : Stream → Bool
passes_on s = has_chunk s || ends_retryable s.ends

-- the failure of the last provider of a list
pub last_failure : Kind → List Provider → Kind
last_failure kind [] = kind
last_failure kind (p ∷ ps) =
    last_failure (if has_chunk p.chat_stream then kind else failure_of p.chat_stream.ends) ps

abbrev pub shown : Kind → Option Provider → Stream × Option Provider
shown kind none = (stops (failed kind), none)
shown kind (some p) = (p.chat_stream, some p)

start_of-chunk :
    (chunks : List Json) (ends : Ending)
    → nonempty chunks ≡ true
    → start_of (record { chunks = chunks; ends = ends }) ≡ started
unfolding start_of
start_of-chunk [] ends h = cc
start_of-chunk (c ∷ cs) ends h = refl

start_of-end :
    (chunks : List Json) (ends : Ending)
    → nonempty chunks ≡ false
    → passes_on (record { chunks = chunks; ends = ends }) ≡ true
    → start_of (record { chunks = chunks; ends = ends }) ≡ failed_start (failure_of ends)
unfolding start_of
start_of-end (c ∷ cs) ends h r = cc
start_of-end [] finished h r = refl
start_of-end [] (failed kind) h r = refl
start_of-end [] crashed h r = cc

failure_of-is_retryable :
    (chunks : List Json) (ends : Ending)
    → nonempty chunks ≡ false
    → passes_on (record { chunks = chunks; ends = ends }) ≡ true
    → is_retryable (failure_of ends) ≡ true
failure_of-is_retryable (c ∷ cs) ends h r = cc
failure_of-is_retryable [] finished h r = r
failure_of-is_retryable [] (failed kind) h r = r
failure_of-is_retryable [] crashed h r = cc

stream_from-first :
    (last : Option Kind) (ps : List Provider)
    → all (λ p. passes_on p.chat_stream) ps ≡ true
    → stream_from last ps
      ≡ shown
          (last_failure (or_default last unavailable) ps)
          (find (λ p. has_chunk p.chat_stream) ps)
unfolding stream_from last_failure find all
stream_from-first last [] h = refl
stream_from-first last (p ∷ ps) h =
    let s = p.chat_stream in
    let ready : passes_on s ≡ true = ground arith in
    elim (Bool-cases (has_chunk s)) [
      | inl some_chunk ↦ let begun = start_of-chunk s.chunks s.ends some_chunk in ground arith
      | inr no_chunk ↦
          let over = start_of-end s.chunks s.ends no_chunk ready in
          let again = failure_of-is_retryable s.chunks s.ends no_chunk ready in
          let rest = stream_from-first (some (failure_of s.ends)) ps (ground arith) in ground arith
    ]

-- What the chain streams is the whole stream of one provider, the first whose stream has a chunk,
-- which is credited with it; if none has, the stream is empty and fails as the last provider did. Of
-- the providers, each has a chunk or ends without one in a way that the chain goes on from, where
-- ending without one is to be unavailable.
pub chain_stream-first :
    (p : Provider) (ps : List Provider)
    → all (λ q. passes_on q.chat_stream) (p ∷ ps) ≡ true
    → chain_stream (p ∷ ps)
      ≡ shown (last_failure unavailable (p ∷ ps)) (find (λ q. has_chunk q.chat_stream) (p ∷ ps))
unfolding chain_stream
chain_stream-first p ps h = stream_from-first none (p ∷ ps) h
