-- ===== src/Connection/Writes.antt =====
-- connection::async_write and connection::async_shared_write: a buffer is sent from an offset on;
-- each completed send goes on with the rest, is the last one, or fails. The source writes this three
-- times, for a string, a static C string and a shared buffer.
use fspserver.Base.{
  ℕ, ◌+◌, ◌≤◌, ◌<◌, Text, if◌then◌else◌, List, [], ◌∷◌, ◌++◌, ◌≡◌, ◌≢◌, arith, ◌==◌, length, take,
  drop, Bool-cases, drop-drop, drop_all, take-append-drop, ap, sym, inl, inr, ==_iff, ◌∙◌,
}
use mathlib.Core.List.{append-nil}
use mathlib.Core.Path.{◌≡⟨◌⟩◌, ◌∎}

-- How an `async_send` completes: the bytes it transferred, an error, or a connection that is gone.
pub data Completion : Type 0 where
  sent : ℕ → Completion
  failed : Completion
  expired : Completion

-- How a write stands: all sent, the connection stopped, dropped, or a send still in flight.
pub data WriteEnd : Type 0 where
  done stopped dropped : WriteEnd
  in_flight : ℕ → WriteEnd

-- The bytes that went out, and how it ended.
unfoldable pub async_write : Text → ℕ → List Completion → Text × WriteEnd
async_write buffer offset [] = ([], in_flight offset)
async_write buffer offset (sent n ∷ rest) =
    let further = async_write buffer (offset + n) rest in
    if offset + n == length buffer
    then (take n (drop offset buffer), done)
    else (take n (drop offset buffer) ++ further.0, further.1)
async_write buffer offset (failed ∷ rest) = ([], stopped)
async_write buffer offset (expired ∷ rest) = ([], dropped)

-- What asio promises of a send that did not fail: it moved at least one byte, and no more than it
-- was given.
abbrev pub Fits : Text → ℕ → List Completion → Type 0
Fits buffer offset [] = Unit
Fits buffer offset (sent n ∷ rest) =
    (0 < n) × (offset + n ≤ length buffer) × Fits buffer (offset + n) rest
Fits buffer offset (failed ∷ rest) = Unit
Fits buffer offset (expired ∷ rest) = Unit

-- A span that ends the buffer is the rest of it.
take_rest :
    (buffer : Text) (offset n : ℕ)
    → offset + n ≡ length buffer
    → take n (drop offset buffer) ≡ drop offset buffer
take_rest buffer offset n e =
    take n (drop offset buffer)
    ≡⟨ sym (append-nil _) ⟩ take n (drop offset buffer) ++ []
    ≡⟨ ap (◌++◌ (take n (drop offset buffer))) (sym rest_empty) ⟩
      take n (drop offset buffer) ++ drop n (drop offset buffer)
    ≡⟨ take-append-drop n (drop offset buffer) ⟩ drop offset buffer ∎
  where
    rest_empty : drop n (drop offset buffer) ≡ []
    rest_empty = drop-drop offset n buffer ∙ rw e (drop_all buffer)

-- If a write ends with `done`, the bytes that went out are the buffer from the offset on, each once
-- and in order.
pub async_write_complete :
    (buffer : Text) (offset : ℕ) (events : List Completion)
    → (async_write buffer offset events).1 ≡ done
    → (async_write buffer offset events).0 ≡ drop offset buffer
unfolding async_write
async_write_complete buffer offset [] h = cc
async_write_complete buffer offset (failed ∷ rest) h = cc
async_write_complete buffer offset (expired ∷ rest) h = cc
async_write_complete buffer offset (sent n ∷ rest) h =
    elim (Bool-cases (offset + n == length buffer)) [
      | inl e ↦ rw e (take_rest buffer offset n ((==_iff _ _).0 e))
      | inr e ↦ rw e (
          rw (async_write_complete buffer (offset + n) rest (rw e at h))
            (rw (← drop-drop offset n buffer) (take-append-drop n (drop offset buffer))))
    ]

abbrev pub Succeeds : List Completion → Type 0
Succeeds [] = Unit
Succeeds (sent n ∷ rest) = Succeeds rest
Succeeds (failed ∷ rest) = ⊥
Succeeds (expired ∷ rest) = ⊥

-- A write of a non-empty rest, none of whose sends fails, ends with `done` once there were as many
-- completions as bytes were left.
pub async_write_finishes :
    (buffer : Text) (offset : ℕ) (events : List Completion)
    → offset < length buffer
    → length buffer ≤ offset + length events
    → Fits buffer offset events
    → Succeeds events
    → (async_write buffer offset events).1 ≡ done
unfolding async_write
async_write_finishes buffer offset [] some_left enough f s = absurd (omega arith)
async_write_finishes buffer offset (failed ∷ rest) some_left enough f s = absurd s
async_write_finishes buffer offset (expired ∷ rest) some_left enough f s = absurd s
async_write_finishes buffer offset (sent n ∷ rest) some_left enough f s =
    elim (Bool-cases (offset + n == length buffer)) [
      | inl e ↦ rw e
      | inr e ↦
          let more : offset + n ≢ length buffer =
            λ q. ground (arith, (==_iff (offset + n) (length buffer)).1 q) in
          rw e (async_write_finishes buffer (offset + n) rest (omega arith) (omega arith) f.2 s)
    ]
