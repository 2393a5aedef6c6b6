-- ===== src/Parser/Message/Body.antt =====
-- What `parse_body` accepts: a header, counted account keys, and what stands behind them. It never
-- panics where the header has room.
use kv260_sigverify.Prelude.{
  ℕ, ◌+◌, ◌≤◌, ◌<◌, ◌^◌, ◌≡◌, ◌≢◌, ap, ◌∙◌, List, [], ◌∷◌, ◌++◌, append-nil, ok, panic, >>=-eq-ok,
  >>=-eq-panic, arith, length, length-append, inl, inr, drop, drop-length, get_elem?_of_lt,
  get_elem?, some, drop_of_get_elem?,
}
use kv260_sigverify.Parser.Types.{MessageVersion, ParsedMessage}
use kv260_sigverify.Parser.Grammar.{joined, Sized, MessageTail}
use kv260_sigverify.Parser.Compact.{decode_compact_u16}
use kv260_sigverify.Parser.Compact.Decode.{IsCompact}
use kv260_sigverify.Parser.Compact.Sound.{Decoded, decode-Decoded, decode-ne-panic}
use kv260_sigverify.Parser.Reader.{take_arrays}
use kv260_sigverify.Parser.Message.{parse_body}
use kv260_sigverify.Parser.Message.Tail.{skip_tail, Skips-tail, finish, parse_body_eq}
use kv260_sigverify.Parser.Message.Accepts.{index_some}
use kv260_sigverify.Parser.Arrays.{Arrays, take_arrays-Arrays, take_arrays-ne-panic}
use kv260_sigverify.Parser.Place.{At, At-room}
use kv260_sigverify.Parser.Skips.{IsSlice, Skipped}

-- Three bytes stand where there is room for them.
record Header (bytes : List ℕ) (offset : ℕ) : Type 0 where
  required : ℕ
  readonly_signed : ℕ
  readonly_unsigned : ℕ
  at : At bytes offset (required ∷ readonly_signed ∷ readonly_unsigned ∷ drop (offset + 3) bytes)

third_at :
    (bytes : List ℕ) (offset c : ℕ)
    → get_elem? bytes (offset + 1 + 1) ≡ some c
    → drop (offset + 1 + 1) bytes ≡ c ∷ drop (offset + 3) bytes
third_at bytes offset c h =
    let e : offset + 1 + 1 + 1 ≡ offset + 3 = omega arith in
    rw e at (drop_of_get_elem? (offset + 1 + 1) bytes h)

Header-at : (bytes : List ℕ) (offset : ℕ) → offset + 3 ≤ length bytes → Header bytes offset
Header-at bytes offset h =
    let (a, ha) = get_elem?_of_lt bytes offset (omega arith) in
    let (b, hb) = get_elem?_of_lt bytes (offset + 1) (omega arith) in
    let (c, hc) = get_elem?_of_lt bytes (offset + 1 + 1) (omega arith) in
    record {
      required = a;
      readonly_signed = b;
      readonly_unsigned = c;
      at = record {
        within = omega arith;
        behind =
            drop_of_get_elem? offset bytes ha
            ∙ ap (λ r. a ∷ r)
                (drop_of_get_elem? (offset + 1) bytes hb
                  ∙ ap (λ r. b ∷ r) (third_at bytes offset c hc));
      };
    }

-- What `parse_body` has read, for the version that it was given.
pub record Body (version : MessageVersion) (offset : ℕ) (bytes : List ℕ) (info : ParsedMessage)
    : Type 0 where
  pub readonly_signed : ℕ
  pub readonly_unsigned : ℕ
  pub count : List ℕ
  pub tail : List ℕ
  pub keys_lt : length info.static_account_keys < 2 ^ 16
  pub counted : IsCompact (length info.static_account_keys) count
  pub sized : Sized 32 info.static_account_keys
  pub tail_ok : MessageTail version tail
  pub version_eq : version ≡ info.message_version
  pub at : At bytes offset (
      info.num_required_signatures
      ∷ readonly_signed
      ∷ readonly_unsigned
      ∷ (count ++ (joined info.static_account_keys ++ tail)))

finish_parts :
    (version : MessageVersion) (required : ℕ) (bytes : List ℕ) (keys : List (List ℕ)) (end : ℕ)
    (info : ParsedMessage)
    → finish version required bytes keys end ≡ ok info
    → (end ≡ length bytes)
      × (version ≡ info.message_version)
      × (required ≡ info.num_required_signatures)
      × (keys ≡ info.static_account_keys)
finish_parts version required bytes keys end info e = ground arith

finish-ne-panic :
    (version : MessageVersion) (required : ℕ) (bytes : List ℕ) (keys : List (List ℕ)) (end : ℕ)
    → finish version required bytes keys end ≢ panic
finish-ne-panic version required bytes keys end e = ground arith

module _ (bytes : List ℕ) (slice : IsSlice bytes) (version : MessageVersion) (offset : ℕ) where
  body_read :
      (h : Header bytes offset) (n o1 : ℕ) (keys : List (List ℕ)) (o2 end : ℕ)
      (info : ParsedMessage)
      → Decoded bytes slice.all_bytes (offset + 3) n o1
      → Arrays 32 "account key" bytes slice n o1 keys o2
      → Skipped (MessageTail version) bytes o2 end
      → finish version h.required bytes keys end ≡ ok info
      → Body version offset bytes info
  body_read h n o1 keys o2 end info d a s e =
      let (end_eq, version_eq, required_eq, keys_eq) =
        finish_parts version h.required bytes keys end info e in
      let last : drop end bytes ≡ [] = rw end_eq (drop-length bytes) in
      record {
        readonly_signed = h.readonly_signed;
        readonly_unsigned = h.readonly_unsigned;
        count = d.enc;
        tail = s.part;
        keys_lt = rw (← keys_eq, a.count_eq) d.fits;
        counted = rw (← keys_eq, a.count_eq) d.compact;
        sized = rw (← keys_eq) a.sized;
        tail_ok = s.valid;
        version_eq = version_eq;
        at = record {
          within = h.at.within;
          behind = rw (
            ← required_eq,
            ← keys_eq,
            h.at.behind,
            d.at.behind,
            a.at.behind,
            s.at.behind,
            last,
            append-nil,
          );
        };
      }

  behind_count : (n o1 : ℕ) → Decoded bytes slice.all_bytes (offset + 3) n o1 → o1 ≤ length bytes
  behind_count n o1 d = omega (arith, At-room d.at, length-append d.enc (drop o1 bytes), d.next_eq)

  behind_keys :
      (n o1 : ℕ) (keys : List (List ℕ)) (o2 : ℕ)
      → Arrays 32 "account key" bytes slice n o1 keys o2
      → o2 ≤ length bytes
  behind_keys n o1 keys o2 a =
      omega (arith, At-room a.at, length-append (joined keys) (drop o2 bytes), a.next_eq)

  pub parse_body-sound :
      (info : ParsedMessage)
      → offset + 3 ≤ length bytes
      → parse_body version offset bytes ≡ ok info
      → Body version offset bytes info
  parse_body-sound info room e =
      let h = Header-at bytes offset room in
      let e1 =
        rw (parse_body_eq version offset bytes, index_some bytes offset h.required _ h.at) at e in
      let ((n, o1), f1, e2) = >>=-eq-ok (decode_compact_u16 bytes (offset + 3)) _ e1 in
      let d = decode-Decoded bytes slice.all_bytes (offset + 3) n o1 f1 in
      let ((keys, o2), f2, e3) = >>=-eq-ok (take_arrays 32 "account key" n bytes o1) _ e2 in
      let a =
        take_arrays-Arrays 32 "account key" bytes slice n o1 keys o2 (behind_count n o1 d) f2 in
      let (end, f3, e4) = >>=-eq-ok (skip_tail version bytes o2) _ e3 in
      let s = (Skips-tail version).sound bytes o2 end slice (behind_keys n o1 keys o2 a) f3 in
      body_read h n o1 keys o2 end info d a s e4

  pub parse_body-ne-panic : offset + 3 ≤ length bytes → parse_body version offset bytes ≢ panic
  parse_body-ne-panic room e =
      let h = Header-at bytes offset room in
      let e1 =
        rw (parse_body_eq version offset bytes, index_some bytes offset h.required _ h.at) at e in
      elim (>>=-eq-panic (decode_compact_u16 bytes (offset + 3)) _ e1) [
        | inl f ↦ decode-ne-panic bytes (offset + 3) f
        | inr ((n, o1), f1, e2) ↦
            let d = decode-Decoded bytes slice.all_bytes (offset + 3) n o1 f1 in
            let room1 = behind_count n o1 d in
            elim (>>=-eq-panic (take_arrays 32 "account key" n bytes o1) _ e2) [
              | inl f ↦ take_arrays-ne-panic 32 "account key" bytes slice n o1 room1 f
              | inr ((keys, o2), f2, e3) ↦
                  let a = take_arrays-Arrays 32 "account key" bytes slice n o1 keys o2 room1 f2 in
                  elim (>>=-eq-panic (skip_tail version bytes o2) _ e3) [
                    | inl f ↦
                        (Skips-tail version).calm bytes o2 slice (behind_keys n o1 keys o2 a) f
                    | inr (end, f3, e4) ↦ finish-ne-panic version h.required bytes keys end e4
                  ]
            ]
      ]
