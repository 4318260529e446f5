-- ===== src/Transfers/Sessions/Hello.antt =====
-- What a peer says is understood.
use fspserver.Base.{ℕ, ◌+◌, ◌*◌, ◌-◌, ◌<◌, Text, true, [], ◌∷◌, some, u64_mod, ◌≡◌, refl, arith}
use fspserver.FileTree.Paths.{Splitter, join, AllFree}
use fspserver.FileTree.Paths.Tokens.{tokens-join, split-tokens}
use fspserver.Transfers.Sessions.{is_digit, digits, unsigned, stoull, try_init_transaction}

-- Decimal digits, and their value after some that were read before.
abbrev pub AllDigits : Text → Type 0
AllDigits [] = Unit
AllDigits (c ∷ cs) = (is_digit c ≡ true) × AllDigits cs

abbrev pub decimal : ℕ → Text → ℕ
decimal n [] = n
decimal n (c ∷ cs) = decimal (10 * n + (c - 48)) cs

pub digits-decimal : (n : ℕ) (t : Text) → AllDigits t → digits n t ≡ decimal n t
unfolding digits
digits-decimal n [] h = refl
digits-decimal n (c ∷ cs) h = rw h.0 (digits-decimal (10 * n + (c - 48)) cs h.1)

stoull-decimal :
    (c : ℕ) (cs : Text)
    → AllDigits (c ∷ cs)
    → decimal 0 (c ∷ cs) < u64_mod
    → stoull (c ∷ cs) ≡ some (decimal 0 (c ∷ cs))
unfolding stoull unsigned
stoull-decimal c cs h small = ground (arith, digits-decimal (0 + (c - 48)) cs h.1, h.0, small)

-- A line that joins a side and a transaction's id, written in decimal digits and below 2^64, by the
-- delimiter, which neither holds, is read as this side and this id.
pub try_init_transaction-join :
    (s : Splitter) (delimiter : ℕ) (receiver_code sender_code type : Text) (c : ℕ) (cs : Text)
    → AllFree delimiter (type ∷ (c ∷ cs) ∷ [])
    → AllDigits (c ∷ cs)
    → decimal 0 (c ∷ cs) < u64_mod
    → try_init_transaction s delimiter receiver_code sender_code true
        (some (join delimiter (type ∷ (c ∷ cs) ∷ [])))
      ≡ some (record { hello_type = type; transaction_id = decimal 0 (c ∷ cs) })
unfolding try_init_transaction
try_init_transaction-join s delimiter receiver_code sender_code type c cs free all small =
    rw
      (
        split-tokens s delimiter (join delimiter (type ∷ (c ∷ cs) ∷ [])),
        tokens-join delimiter type ((c ∷ cs) ∷ []) free,
        stoull-decimal c cs all small,
      )
      refl
