-- ===== src/Parser/Instructions.antt =====
-- `skip_compiled_instructions` and `skip_address_table_lookups` of parser.rs skip exactly the
-- counted vectors of instructions and of table lookups.
use kv260_sigverify.Prelude.{◌≡◌, String, >>=_assoc}
use mathlib.Core.Path.{fun_ext}
use kv260_sigverify.Parser.Grammar.{Counted, ByteVector, Instruction, TableLookup}
use kv260_sigverify.Parser.Reader.{
  skip_instruction, skip_lookup, skip_compiled_instructions, skip_address_table_lookups,
}
use kv260_sigverify.Parser.Skips.{Skipper, Skips, and_then, Skips-and_then}
use kv260_sigverify.Parser.Skips.Rules.{
  take_exactly, Skips-exactly, counted_by, Skips-counted_by, Skips-repeat,
}

-- A length and as many bytes.
abbrev skip_vector : String → Skipper
skip_vector label = counted_by (λ n. take_exactly n label)

Skips-vector : (label : String) → Skips (skip_vector label) ByteVector
Skips-vector label = Skips-counted_by (λ n. Skips-exactly n label)

-- The bodies of the two loops, as one skipper after the other.
skip_instruction_eq :
    skip_instruction
    ≡ and_then
        (take_exactly 1 "program_id_index")
        (and_then (skip_vector "instruction account indices") (skip_vector "instruction data"))
unfolding skip_instruction
skip_instruction_eq = fun_ext λ bytes. fun_ext λ offset. simp >>=_assoc

skip_lookup_eq :
    skip_lookup
    ≡ and_then
        (take_exactly 32 "lookup account key")
        (and_then (skip_vector "writable lookup indices") (skip_vector "readonly lookup indices"))
unfolding skip_lookup
skip_lookup_eq = fun_ext λ bytes. fun_ext λ offset. simp >>=_assoc

Skips-instruction : Skips skip_instruction Instruction
Skips-instruction =
    rw skip_instruction_eq
      (Skips-and_then (Skips-exactly 1 _) (Skips-and_then (Skips-vector _) (Skips-vector _)))

Skips-lookup : Skips skip_lookup TableLookup
Skips-lookup =
    rw skip_lookup_eq
      (Skips-and_then (Skips-exactly 32 _) (Skips-and_then (Skips-vector _) (Skips-vector _)))

-- `skip_compiled_instructions` skips a counted vector of instructions wherever one stands, skips
-- nothing else, and never panics.
pub Skips-compiled_instructions : Skips skip_compiled_instructions (Counted Instruction)
unfolding skip_compiled_instructions
Skips-compiled_instructions = Skips-counted_by (Skips-repeat Skips-instruction)

-- `skip_address_table_lookups` skips a counted vector of table lookups wherever one stands, skips
-- nothing else, and never panics.
pub Skips-address_table_lookups : Skips skip_address_table_lookups (Counted TableLookup)
unfolding skip_address_table_lookups
Skips-address_table_lookups = Skips-counted_by (Skips-repeat Skips-lookup)
