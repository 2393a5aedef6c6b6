-- ===== src/Parser/Grammar.antt =====
-- The wire format of a serialized Solana message, stated as sets of byte strings, with no offsets:
-- an instruction, a table lookup, and the counted vectors of such.
use kv260_sigverify.Prelude.{ℕ, zero, suc, ◌^◌, ◌<◌, ◌≡◌, List, [], ◌∷◌, ◌++◌, length, All}
use kv260_sigverify.Parser.Types.{MessageVersion, legacy, v0, ParsedMessage}
use kv260_sigverify.Parser.Compact.Decode.{IsCompact}

abbrev pub Language : Type 1
Language = List ℕ → Type 0

-- A string of `P` followed by a string of `Q`.
infixr 60 ◌⋆◌
abbrev pub ◌⋆◌ : Language → Language → Language
◌⋆◌ P Q bytes = (a : List ℕ) × (b : List ℕ) × P a × Q b × (bytes ≡ a ++ b)

abbrev pub Exactly : ℕ → Language
Exactly n bytes = length bytes ≡ n

abbrev pub Repeated : Language → ℕ → Language
Repeated P zero bytes = bytes ≡ []
Repeated P (suc n) bytes = (P ⋆ Repeated P n) bytes

-- A compact-u16 count, and as many strings of `P`.
abbrev pub Counted : Language → Language
Counted P bytes = (n : ℕ) × (n < 2 ^ 16) × (IsCompact n ⋆ Repeated P n) bytes

-- A compact-u16 length, and as many bytes.
abbrev pub ByteVector : Language
ByteVector bytes = (n : ℕ) × (n < 2 ^ 16) × (IsCompact n ⋆ Exactly n) bytes

-- The program's index, the account indices, the instruction's data.
abbrev pub Instruction : Language
Instruction = Exactly 1 ⋆ (ByteVector ⋆ ByteVector)

-- The table's key, the writable indices, the readonly indices.
abbrev pub TableLookup : Language
TableLookup = Exactly 32 ⋆ (ByteVector ⋆ ByteVector)

-- Arrays one behind the other.
abbrev pub joined : List (List ℕ) → List ℕ
joined [] = []
joined (entry ∷ entries) = entry ++ joined entries

-- Every entry has `size` bytes.
abbrev pub Sized : ℕ → List (List ℕ) → Type 0
Sized size = All (λ entry. length entry ≡ size)

-- Only a v0 message has table lookups.
abbrev pub Lookups : MessageVersion → Language
Lookups legacy bytes = bytes ≡ []
Lookups v0 bytes = Counted TableLookup bytes

-- What follows the account keys: the blockhash, the instructions, the lookups.
abbrev pub MessageTail : MessageVersion → Language
MessageTail version = Exactly 32 ⋆ (Counted Instruction ⋆ Lookups version)

-- A legacy message starts with its header, whose first byte has a clear top bit; a v0 message has
-- the byte 0x80 in front.
abbrev pub version_prefix : MessageVersion → List ℕ
version_prefix legacy = []
version_prefix v0 = 0x80 ∷ []

-- The bytes of a message, and what `parse_message` is to say of them.
pub record IsMessage (bytes : List ℕ) (info : ParsedMessage) : Type 0 where
  pub readonly_signed : ℕ
  pub readonly_unsigned : ℕ
  pub count : List ℕ
  pub tail : List ℕ
  pub keys_lt : length info.static_account_keys < 2 ^ 16
  pub counted : IsCompact (length info.static_account_keys) count
  pub sized : Sized 32 info.static_account_keys
  pub tail_ok : MessageTail info.message_version tail
  pub marked : info.message_version ≡ legacy → info.num_required_signatures < 128
  pub layout :
      bytes
      ≡ version_prefix info.message_version
        ++ (info.num_required_signatures
            ∷ readonly_signed
            ∷ readonly_unsigned
            ∷ (count ++ (joined info.static_account_keys ++ tail)))
