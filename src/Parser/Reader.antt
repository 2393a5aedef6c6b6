-- ===== src/Parser/Reader.antt =====
-- Reading a byte slice at an offset: indexing and slicing with their panics, `take`,
-- `skip_compiled_instructions` and `skip_address_table_lookups` of parser.rs.
use kv260_sigverify.Prelude.{
  ℕ, zero, suc, ◌+◌, ◌-◌, ◌^◌, List, String, ◌&&◌, none, some, Outcome, ok, err, panic, ◌>>=◌, min,
  ltb, leb, ◌==◌, if◌then◌else◌, get_elem?, length, slice,
}
use kv260_sigverify.Prelude.Format.{◌⧺◌}
use kv260_sigverify.Parser.Types.{Parse, parse_error}
use kv260_sigverify.Parser.Compact.{decode_compact_u16}

-- `xs[i]`
abbrev pub index {ℓ} : {E A : Type ℓ} → List A → ℕ → Outcome E A
index xs i = elim (get_elem? xs i) [ none ↦ panic | some x ↦ ok x ]

-- `xs[start..end]`
abbrev pub range {ℓ} : {E A : Type ℓ} → List A → ℕ → ℕ → Outcome E (List A)
range xs start end = if leb start end && leb end (length xs) then ok (slice xs start end) else panic

-- `xs.try_into().expect(..)` into an array of `n` elements
abbrev pub to_array {ℓ} : {E A : Type ℓ} → ℕ → List A → Outcome E (List A)
to_array n xs = if length xs == n then ok xs else panic

-- The largest `usize`, where `saturating_add` stops.
abbrev pub usize_max : ℕ
usize_max = 2 ^ 64 - 1

unfoldable pub take : List ℕ → ℕ → ℕ → String → Parse (List ℕ × ℕ)
take bytes offset size label =
    let end = min (offset + size) usize_max in
    if ltb (length bytes) end
    then err (parse_error ("truncated " ⧺ label))
    else (range bytes offset end >>= λ part. ok (part, end))

-- The body of the loop of `skip_compiled_instructions`.
unfoldable pub skip_instruction : List ℕ → ℕ → Parse ℕ
skip_instruction bytes offset = do
  (_, o1) ← take bytes offset 1 "program_id_index"
  (account_index_count, o2) ← decode_compact_u16 bytes o1
  (_, o3) ← take bytes o2 account_index_count "instruction account indices"
  (data_length, o4) ← decode_compact_u16 bytes o3
  (_, o5) ← take bytes o4 data_length "instruction data"
  ok o5

-- A `for _ in 0..count` loop over an offset.
unfoldable pub repeat_skip : (List ℕ → ℕ → Parse ℕ) → ℕ → List ℕ → ℕ → Parse ℕ
repeat_skip body zero bytes offset = ok offset
repeat_skip body (suc count) bytes offset =
    body bytes offset >>= λ next. repeat_skip body count bytes next

unfoldable pub skip_compiled_instructions : List ℕ → ℕ → Parse ℕ
skip_compiled_instructions bytes offset = do
  (instruction_count, next) ← decode_compact_u16 bytes offset
  repeat_skip skip_instruction instruction_count bytes next

-- The body of the loop of `skip_address_table_lookups`.
unfoldable pub skip_lookup : List ℕ → ℕ → Parse ℕ
skip_lookup bytes offset = do
  (_, o1) ← take bytes offset 32 "lookup account key"
  (writable_count, o2) ← decode_compact_u16 bytes o1
  (_, o3) ← take bytes o2 writable_count "writable lookup indices"
  (readonly_count, o4) ← decode_compact_u16 bytes o3
  (_, o5) ← take bytes o4 readonly_count "readonly lookup indices"
  ok o5

unfoldable pub skip_address_table_lookups : List ℕ → ℕ → Parse ℕ
skip_address_table_lookups bytes offset = do
  (lookup_count, next) ← decode_compact_u16 bytes offset
  repeat_skip skip_lookup lookup_count bytes next

-- The loops that collect `[u8; size]` values: the account keys and the signatures.
unfoldable pub take_arrays : ℕ → String → ℕ → List ℕ → ℕ → Parse (List (List ℕ) × ℕ)
take_arrays size label zero bytes offset = ok (List.[], offset)
take_arrays size label (suc count) bytes offset = do
  (part, next) ← take bytes offset size label
  entry ← to_array size part
  (entries, end) ← take_arrays size label count bytes next
  ok (List.◌∷◌ entry entries, end)
