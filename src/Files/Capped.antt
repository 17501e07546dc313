-- ===== src/Files/Capped.antt =====
-- `read_upload_capped` of app/services/file_storage.py: an upload is read a chunk at a time, and
-- refused as soon as it is too large.
use edtech_back.Base.{
  ℕ, ◌≡◌, ◌+◌, ◌≤◌, refl, Bool, true, false, not, List, [], ◌∷◌, ◌++◌, nonempty, ltb, length,
  length-append, all, if◌then◌else◌, Outcome, ok, http_error, arith, Bool-cases, inl, inr,
}

-- the chunks that were read before the rest
abbrev pub prepend : List ℕ → Outcome (List ℕ) → Outcome (List ℕ)
prepend chunk (ok rest) = ok (chunk ++ rest)
prepend chunk (http_error code) = http_error code

-- the loop, with the `total` that was read; `stream` is what each call of `read` gives
unfoldable pub read_upload_capped : ℕ → ℕ → List (List ℕ) → Outcome (List ℕ)
read_upload_capped max_bytes total [] = ok []
read_upload_capped max_bytes total (chunk ∷ stream) =
    let rest = read_upload_capped max_bytes (total + length chunk) stream in
    if not (nonempty chunk)
    then ok []
    else if ltb max_bytes (total + length chunk)
    then http_error 413
    else prepend chunk rest

-- the bytes of a stream
unfoldable pub joined : List (List ℕ) → List ℕ
joined [] = []
joined (chunk ∷ stream) = chunk ++ joined stream

prepend-if :
    (b : Bool) (chunk rest : List ℕ)
    → prepend chunk (if b then http_error 413 else ok rest)
      ≡ (if b then http_error 413 else ok (chunk ++ rest))
prepend-if true chunk rest = refl
prepend-if false chunk rest = refl

read_upload_capped-from :
    (max_bytes total : ℕ) (stream : List (List ℕ))
    → total ≤ max_bytes
    → all (λ c. nonempty c) stream ≡ true
    → read_upload_capped max_bytes total stream ≡ (
        if ltb max_bytes (total + length (joined stream))
        then http_error 413
        else ok (joined stream))
unfolding read_upload_capped joined all
read_upload_capped-from max_bytes total [] fits whole = ground arith
read_upload_capped-from max_bytes total (chunk ∷ stream) fits whole =
    let several : nonempty chunk ≡ true = ground arith in
    let both = length-append chunk (joined stream) in
    elim (Bool-cases (ltb max_bytes (total + length chunk))) [
      | inl over ↦ ground arith
      | inr within ↦
          rw
            (
              several,
              within,
              read_upload_capped-from max_bytes (total + length chunk) stream (ground arith)
                  (ground arith),
            )
            (rw
              (prepend-if (ltb max_bytes (total + length chunk + length (joined stream))) chunk
                (joined stream))
              (rw both (ground arith)))
    ]

-- Read in chunks of at least a byte, an upload is refused exactly if it is larger than the limit as a
-- whole, and is read whole otherwise.
pub read_upload_capped-joined :
    (max_bytes : ℕ) (stream : List (List ℕ))
    → all (λ c. nonempty c) stream ≡ true
    → read_upload_capped max_bytes 0 stream
      ≡ (if ltb max_bytes (length (joined stream)) then http_error 413 else ok (joined stream))
read_upload_capped-joined max_bytes stream whole =
    rw (read_upload_capped-from max_bytes 0 stream (ground arith) whole) (ground arith)
