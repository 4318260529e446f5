-- ===== src/Transfers/Sessions.antt =====
-- download_manager::TemporarySession (download_manager.cpp): a peer connects and says which
-- transaction it has come for. The constants of the protocol's header are parameters: the delimiter, the
-- codes of the two sides, and whether the side stands before the transaction's id.
pub mod Hello
use fspserver.Base.{
  ℕ, ◌+◌, ◌*◌, ◌-◌, ◌%◌, Text, Bool, true, false, ◌&&◌, ◌||◌, ◌==◌, ltb, if◌then◌else◌, same, List,
  [], ◌∷◌, Option, none, some, u64_mod,
}
use fspserver.FileTree.Paths.{Splitter}
use fspserver.Transfers.{Transfers, try_start_download_transaction, try_start_upload_transaction}

abbrev pub is_space : ℕ → Bool
is_space c = c == 32 || (ltb 8 c && ltb c 14)

abbrev pub is_digit : ℕ → Bool
is_digit c = ltb 47 c && ltb c 58

-- The value of the digits at the front, after those that were read before.
unfoldable pub digits : ℕ → Text → ℕ
digits n [] = n
digits n (c ∷ cs) = let further = digits (10 * n + (c - 48)) cs in if is_digit c then further else n

abbrev pub checked : ℕ → Option ℕ
checked n = if ltb n u64_mod then some n else none

-- The digits from here on, if there is one at the front and their value fits.
unfoldable pub unsigned : Text → Option ℕ
unfolding digits
unsigned [] = none
unsigned (c ∷ cs) = if is_digit c then checked (digits 0 (c ∷ cs)) else none

abbrev pub negated : Option ℕ → Option ℕ
negated none = none
negated (some n) = some ((u64_mod - n) % u64_mod)

-- std::stoull: `none` where it throws.
unfoldable pub stoull : Text → Option ℕ
unfolding unsigned
stoull [] = none
stoull (c ∷ cs) =
    let later = stoull cs in
    if is_space c
    then later
    else if c == 43
    then unsigned cs
    else if c == 45
    then negated (unsigned cs)
    else unsigned (c ∷ cs)

-- TemporarySession::HelloMessage
pub record HelloMessage : Type 0 where
  pub hello_type : Text
  pub transaction_id : ℕ

module _ (s : Splitter) (delimiter : ℕ) (receiver_code sender_code : Text) (type_first : Bool) where
  abbrev pub hello : Text → Option ℕ → Option HelloMessage
  hello type none = none
  hello type (some id) = some (record { hello_type = type; transaction_id = id })

  abbrev pub from_tokens : List Text → Option HelloMessage
  from_tokens (a ∷ b ∷ []) = if type_first then hello a (stoull b) else hello b (stoull a)
  from_tokens _ = none

  -- TryInitTransaction, for the line that was read, unless the wait ran out.
  unfoldable pub try_init_transaction : Option Text → Option HelloMessage
  unfolding stoull
  try_init_transaction none = none
  try_init_transaction (some line) = from_tokens (s.split delimiter line)

  abbrev pub begin_side : HelloMessage → Transfers → Option Transfers
  begin_side m t =
      if same m.hello_type receiver_code
      then try_start_upload_transaction m.transaction_id t
      else if same m.hello_type sender_code
      then try_start_download_transaction m.transaction_id t
      else some t

  -- HandleHandshake: `none` where it calls a null receiver.
  unfoldable pub handle_handshake : Bool → Option Text → Transfers → Option Transfers
  unfolding try_init_transaction
  handle_handshake true line t = some t
  handle_handshake false line t = elim (try_init_transaction line) [
    | none ↦ some t
    | some m ↦ begin_side m t
  ]
