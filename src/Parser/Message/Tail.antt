-- ===== src/Parser/Message/Tail.antt =====
-- What `parse_message` of parser.rs skips behind the account keys.
use kv260_sigverify.Prelude.{
  ℕ, ◌+◌, ◌≡◌, List, ok, ◌>>=◌, >>=_assoc, length, ◌==◌, if◌then◌else◌, err,
}
use kv260_sigverify.Parser.Types.{MessageVersion, legacy, v0, Parse, ParsedMessage, parse_error}
use kv260_sigverify.Parser.Grammar.{Lookups, MessageTail}
use kv260_sigverify.Parser.Compact.{decode_compact_u16}
use kv260_sigverify.Parser.Reader.{index, take_arrays, skip_compiled_instructions, repeat_skip}
use kv260_sigverify.Parser.Message.{skip_lookups_of, parse_body}
use kv260_sigverify.Parser.Instructions.{Skips-compiled_instructions, Skips-address_table_lookups}
use kv260_sigverify.Parser.Skips.{Skipper, Skips, and_then, Skips-and_then}
use kv260_sigverify.Parser.Skips.Rules.{take_exactly, Skips-exactly, Skips-repeat}

Skips-lookups_of : (version : MessageVersion) → Skips (skip_lookups_of version) (Lookups version)
unfolding skip_lookups_of repeat_skip
Skips-lookups_of legacy = Skips-repeat (Skips-exactly 0 "") 0
Skips-lookups_of v0 = Skips-address_table_lookups

-- The blockhash, the instructions and the lookups, as one skipper.
pub skip_tail : MessageVersion → Skipper
skip_tail version =
    and_then (take_exactly 32 "recent blockhash")
      (and_then skip_compiled_instructions (skip_lookups_of version))

pub Skips-tail : (version : MessageVersion) → Skips (skip_tail version) (MessageTail version)
unfolding skip_tail
Skips-tail version =
    Skips-and_then (Skips-exactly 32 _)
      (Skips-and_then Skips-compiled_instructions (Skips-lookups_of version))

-- The end of `parse_body`, from the offset behind the account keys.
abbrev pub finish : MessageVersion → ℕ → List ℕ → List (List ℕ) → ℕ → Parse ParsedMessage
finish version required bytes keys end =
    if end == length bytes
    then ok (record {
      message_version = version;
      num_required_signatures = required;
      static_account_keys = keys;
    })
    else err (parse_error "trailing bytes remain after message parse")

pub parse_body_eq :
    (version : MessageVersion) (header_offset : ℕ) (bytes : List ℕ)
    → parse_body version header_offset bytes ≡ (
        index bytes header_offset >>= λ required.
        decode_compact_u16 bytes (header_offset + 3) >>= λ r.
        take_arrays 32 "account key" r.0 bytes r.1 >>= λ k.
        skip_tail version bytes k.1 >>= λ end. finish version required bytes k.0 end)
unfolding parse_body skip_tail
parse_body_eq version header_offset bytes = simp >>=_assoc
