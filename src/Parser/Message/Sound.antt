-- ===== src/Parser/Message/Sound.antt =====
-- `parse_message` accepts nothing but messages of the format, and never panics.
use kv260_sigverify.Prelude.{
  ℕ, ◌+◌, ◌≤◌, ◌<◌, ◌≡◌, ◌≢◌, ◌∙◌, ap, List, [], ◌∷◌, ◌++◌, Outcome, ok, err, panic, >>=-eq-ok,
  >>=-eq-panic, arith, length, ltb, if◌then◌else◌, inl, inr, ◌⊎◌, some, drop, All_get,
  get_elem?_of_lt, get_elem?, drop_of_get_elem?,
}
use kv260_sigverify.Prelude.Bits.{bit_and_mask127, bit_and_bit7}
use kv260_sigverify.Parser.Types.{MessageVersion, legacy, v0, ParsedMessage, IsByte}
use kv260_sigverify.Parser.Grammar.{IsMessage, version_prefix}
use kv260_sigverify.Parser.Message.{message_prefix, parse_body, parse_message}
use kv260_sigverify.Parser.Message.Accepts.{parse_message_eq}
use kv260_sigverify.Parser.Message.Body.{Body, parse_body-sound, parse_body-ne-panic}
use kv260_sigverify.Parser.Place.{At-get}
use kv260_sigverify.Parser.Skips.{IsSlice}

-- What the first byte says.
prefix_cases :
    (bytes : List ℕ) (first : ℕ) (r : MessageVersion × ℕ)
    → get_elem? bytes 0 ≡ some first
    → first < 256
    → message_prefix bytes ≡ ok r
    → ((r ≡ (legacy, 0)) × (first < 128)) ⊎ ((r ≡ (v0, 1)) × (first ≡ 0x80))
unfolding message_prefix
prefix_cases bytes first r found byte e =
    ground (arith, found, bit_and_bit7 first, bit_and_mask127 first)

prefix-ne-panic :
    (bytes : List ℕ) (first : ℕ) → get_elem? bytes 0 ≡ some first → message_prefix bytes ≢ panic
unfolding message_prefix
prefix-ne-panic bytes first found e = ground (arith, found)

first_byte :
    (bytes : List ℕ)
    → IsSlice bytes
    → 0 < length bytes
    → (first : ℕ) × (get_elem? bytes 0 ≡ some first) × (first < 256)
first_byte bytes slice h =
    let (first, found) = get_elem?_of_lt bytes 0 h in
    (first, found, All_get IsByte bytes 0 slice.all_bytes found)

-- A guard that leads to a value was passed.
guard_passed :
    {E A : Type 0} (a b : ℕ) (e : E) (m : Outcome E A) {x : A}
    → (if ltb a b then err e else m) ≡ ok x
    → (b ≤ a) × (m ≡ ok x)
guard_passed a b e m h = ground arith

guard_panics :
    {E A : Type 0} (a b : ℕ) (e : E) (m : Outcome E A)
    → (if ltb a b then err e else m) ≡ panic
    → (b ≤ a) × (m ≡ panic)
guard_panics a b e m h = ground arith

parse_message-nonempty :
    (bytes : List ℕ) {info : ParsedMessage} → parse_message bytes ≡ ok info → 0 < length bytes
unfolding parse_message
parse_message-nonempty [] h = cc
parse_message-nonempty (b ∷ bs) h = omega arith

panic-nonempty : (bytes : List ℕ) → parse_message bytes ≡ panic → 0 < length bytes
unfolding parse_message
panic-nonempty [] h = cc
panic-nonempty (b ∷ bs) h = omega arith

module _ (bytes : List ℕ) (info : ParsedMessage) (slice : IsSlice bytes) where
  -- A body that starts behind the prefix of its version makes a message.
  IsMessage-read :
      (version : MessageVersion)
      → Body version (length (version_prefix version)) bytes info
      → (info.message_version ≡ legacy → info.num_required_signatures < 128)
      → ((rest : List ℕ)
          → drop (length (version_prefix version)) bytes ≡ rest
          → bytes ≡ version_prefix version ++ rest)
      → IsMessage bytes info
  IsMessage-read version b marked front = record {
    readonly_signed = b.readonly_signed;
    readonly_unsigned = b.readonly_unsigned;
    count = b.count;
    tail = b.tail;
    keys_lt = b.keys_lt;
    counted = b.counted;
    sized = b.sized;
    tail_ok = rw (← b.version_eq) b.tail_ok;
    marked = marked;
    layout = rw (← b.version_eq) (front _ b.at.behind);
  }

  legacy_read :
      (first : ℕ)
      → get_elem? bytes 0 ≡ some first
      → first < 128
      → 0 + 3 ≤ length bytes
      → parse_body legacy 0 bytes ≡ ok info
      → IsMessage bytes info
  legacy_read first found small room e =
      let b = parse_body-sound bytes slice legacy 0 info room e in
      let same : first ≡ info.num_required_signatures = cc (At-get b.at) in
      IsMessage-read legacy b (λ _. omega arith) (λ rest h. h)

  v0_read :
      get_elem? bytes 0 ≡ some 0x80
      → 1 + 3 ≤ length bytes
      → parse_body v0 1 bytes ≡ ok info
      → IsMessage bytes info
  v0_read found room e =
      let b = parse_body-sound bytes slice v0 1 info room e in
      IsMessage-read v0 b (λ h. cc b.version_eq)
        (λ rest h. drop_of_get_elem? 0 bytes found ∙ ap (λ r. 0x80 ∷ r) h)

  either_read :
      (first : ℕ) (r : MessageVersion × ℕ)
      → get_elem? bytes 0 ≡ some first
      → ((r ≡ (legacy, 0)) × (first < 128)) ⊎ ((r ≡ (v0, 1)) × (first ≡ 0x80))
      → r.1 + 3 ≤ length bytes
      → parse_body r.0 r.1 bytes ≡ ok info
      → IsMessage bytes info
  either_read first r found (inl (e, small)) room h =
      legacy_read first found small (rw e at room) (rw e at h)
  either_read first r found (inr (e, marker)) room h =
      v0_read (rw marker at found) (rw e at room) (rw e at h)

-- Whatever slice `parse_message` accepts is a message of the format, with the version, the
-- signature count and the account keys that it returns.
pub parse_message_sound :
    (bytes : List ℕ) (info : ParsedMessage)
    → IsSlice bytes
    → parse_message bytes ≡ ok info
    → IsMessage bytes info
parse_message_sound bytes info slice e =
    let room = parse_message-nonempty bytes e in
    let (first, found, byte) = first_byte bytes slice room in
    let (r, f1, e1) = >>=-eq-ok (message_prefix bytes) _ (rw (parse_message_eq bytes room) at e) in
    let (fits, e2) = guard_passed (length bytes) (r.1 + 3) _ (parse_body r.0 r.1 bytes) e1 in
    either_read bytes info slice first r found (prefix_cases bytes first r found byte f1) fits e2

-- On no slice does `parse_message` panic.
pub parse_message-ne-panic : (bytes : List ℕ) → IsSlice bytes → parse_message bytes ≢ panic
parse_message-ne-panic bytes slice e =
    let room = panic-nonempty bytes e in
    let (first, found, byte) = first_byte bytes slice room in
    elim (>>=-eq-panic (message_prefix bytes) _ (rw (parse_message_eq bytes room) at e)) [
      | inl f ↦ prefix-ne-panic bytes first found f
      | inr (r, f1, e1) ↦
          let (fits, e2) = guard_panics (length bytes) (r.1 + 3) _ (parse_body r.0 r.1 bytes) e1 in
          parse_body-ne-panic bytes slice r.0 r.1 fits e2
    ]
