-- ===== src/Prelude/Format.antt =====
-- The forms of Rust's `format!` that the program uses: `{n}`, `{n:08x}` and `{n:04x}`.
use Prim.Native.Nat.{ℕ, zero, suc, ◌+◌, ◌/◌, ◌%◌, ◌^◌}
use Prim.Native.String.{String, ◌++◌, slice}
use kv260_sigverify.Prelude.Tests.{ltb, if◌then◌else◌}

pub digit : ℕ → String
digit d = slice "0123456789abcdef" d (d + 1)

decimal_digits : ℕ → ℕ → String
decimal_digits zero n = ""
decimal_digits (suc fuel) n =
    let front = decimal_digits fuel (n / 10) in
    if ltb n 10 then digit n else front ++ digit (n % 10)

-- `{n}`. A `usize` or `u64` has at most twenty decimal digits.
unfoldable pub decimal : ℕ → String
unfolding decimal_digits digit
decimal n = decimal_digits 20 n

-- The lowest `k` hexadecimal digits.
unfoldable pub hex_digits : ℕ → ℕ → String
unfolding digit
hex_digits zero n = ""
hex_digits (suc k) n = hex_digits k (n / 16) ++ digit (n % 16)

hex_all : ℕ → ℕ → String
hex_all zero n = ""
hex_all (suc fuel) n =
    let front = hex_all fuel (n / 16) in if ltb n 16 then digit n else front ++ digit (n % 16)

-- `{n:0kx}` pads to `k` digits and cuts nothing. A `usize` has at most sixteen digits.
unfoldable pub hex_padded : ℕ → ℕ → String
unfolding hex_digits hex_all digit
hex_padded k n = if ltb n (16 ^ k) then hex_digits k n else hex_all 16 n

-- Texts joined, as `format!` joins them.
infixr 65 ◌⧺◌
abbrev pub ◌⧺◌ : String → String → String
s ⧺ t = s ++ t
