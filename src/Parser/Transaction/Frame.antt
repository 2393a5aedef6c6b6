-- ===== src/Parser/Transaction/Frame.antt =====
-- The frame of a transaction: counted signatures, and the message behind them.
use kv260_sigverify.Prelude.{
  ℕ, ◌+◌, ◌≤◌, ◌<◌, ◌^◌, ◌≡◌, ap, ◌∙◌, List, ◌++◌, ok, panic, ◌>>=◌, >>=-eq-ok, >>=-eq-panic, inl,
  inr, arith, length, length-append, drop, slice_rest, All-drop, Outcome,
}
use kv260_sigverify.Parser.Types.{ParsedTransaction, ParseError, IsByte}
use kv260_sigverify.Parser.Grammar.{joined, Sized}
use kv260_sigverify.Parser.Compact.{decode_compact_u16}
use kv260_sigverify.Parser.Compact.Decode.{IsCompact, decode-IsCompact}
use kv260_sigverify.Parser.Compact.Sound.{Decoded, decode-Decoded, decode-ne-panic}
use kv260_sigverify.Parser.Reader.{take_arrays, range}
use kv260_sigverify.Parser.Message.{parse_message}
use kv260_sigverify.Parser.Transaction.{assemble, parse_transaction}
use kv260_sigverify.Parser.Arrays.{
  Arrays, take_arrays-accepts, take_arrays-Arrays, take_arrays-ne-panic,
}
use kv260_sigverify.Parser.Place.{At, At-advance, At-room}
use kv260_sigverify.Parser.Skips.{IsSlice}

-- A compact-u16 count, as many signatures, and the message.
pub record Frame (bytes : List ℕ) (signatures : List (List ℕ)) (message : List ℕ) : Type 0 where
  pub count : List ℕ
  pub fits : length signatures < 2 ^ 16
  pub counted : IsCompact (length signatures) count
  pub sized : Sized 64 signatures
  pub layout : bytes ≡ count ++ (joined signatures ++ message)

range_rest :
    (bytes : List ℕ) (start : ℕ)
    → start ≤ length bytes
    → range {E = ParseError} bytes start (length bytes) ≡ ok (drop start bytes)
range_rest bytes start h = ground (arith, slice_rest bytes start)

-- What is left to do once the frame is read.
abbrev pub rest_of : List ℕ → List (List ℕ) → List ℕ → Outcome ParseError ParsedTransaction
rest_of bytes signatures message =
    parse_message message >>= λ info. assemble bytes signatures (length signatures) message info

module _ (bytes : List ℕ) (slice : IsSlice bytes) where
  pub parse-Frame :
      (signatures : List (List ℕ)) (message : List ℕ)
      → Frame bytes signatures message
      → parse_transaction bytes ≡ rest_of bytes signatures message
  unfolding parse_transaction
  parse-Frame signatures message f =
      let at0 : At bytes 0 (f.count ++ (joined signatures ++ message)) = record {
        within = omega arith;
        behind = f.layout;
      } in
      let at1 = At-advance f.count (joined signatures ++ message) at0 in
      let at2 = At-advance (joined signatures) message at1 in
      rw (
        decode-IsCompact bytes 0 (length signatures) f.count _ f.fits f.counted at0,
        take_arrays-accepts 64 "signature" bytes slice signatures _ message f.sized at1,
        range_rest bytes _ at2.within,
        at2.behind,
      )

  -- Where the frame cannot be read the result is an error; where it can, the rest decides.
  Frame-read :
      (n o1 : ℕ) (signatures : List (List ℕ)) (o2 : ℕ)
      → Decoded bytes slice.all_bytes 0 n o1
      → Arrays 64 "signature" bytes slice n o1 signatures o2
      → Frame bytes signatures (drop o2 bytes)
  Frame-read n o1 signatures o2 d a = record {
    count = d.enc;
    fits = rw a.count_eq d.fits;
    counted = rw a.count_eq d.compact;
    sized = a.sized;
    layout = d.at.behind ∙ ap (λ r. d.enc ++ r) a.at.behind;
  }

  pub record Read (r : Outcome ParseError ParsedTransaction) : Type 0 where
    pub signatures : List (List ℕ)
    pub message : List ℕ
    pub frame : Frame bytes signatures message
    pub rest_eq : rest_of bytes signatures message ≡ r

  behind_count : (n o1 : ℕ) → Decoded bytes slice.all_bytes 0 n o1 → o1 ≤ length bytes
  behind_count n o1 d = omega (arith, At-room d.at, length-append d.enc (drop o1 bytes), d.next_eq)

  behind_signatures :
      (n o1 : ℕ) (signatures : List (List ℕ)) (o2 : ℕ)
      → Arrays 64 "signature" bytes slice n o1 signatures o2
      → o2 ≤ length bytes
  behind_signatures n o1 signatures o2 a =
      omega (arith, At-room a.at, length-append (joined signatures) (drop o2 bytes), a.next_eq)

  Read-rest :
      (n o1 : ℕ) (signatures : List (List ℕ)) (o2 : ℕ) (r : Outcome ParseError ParsedTransaction)
      → Decoded bytes slice.all_bytes 0 n o1
      → Arrays 64 "signature" bytes slice n o1 signatures o2
      → (range bytes o2 (length bytes) >>= λ message.
          parse_message message >>= λ info. assemble bytes signatures n message info)
        ≡ r
      → Read r
  Read-rest n o1 signatures o2 r d a e = record {
    signatures = signatures;
    message = drop o2 bytes;
    frame = Frame-read n o1 signatures o2 d a;
    rest_eq = rw (range_rest bytes o2 (behind_signatures n o1 signatures o2 a), ← a.count_eq) at e;
  }

  pub parse_ok-Read : (p : ParsedTransaction) → parse_transaction bytes ≡ ok p → Read (ok p)
  unfolding parse_transaction
  parse_ok-Read p e =
      let ((n, o1), f1, e1) = >>=-eq-ok (decode_compact_u16 bytes 0) _ e in
      let d = decode-Decoded bytes slice.all_bytes 0 n o1 f1 in
      let ((signatures, o2), f2, e2) = >>=-eq-ok (take_arrays 64 "signature" n bytes o1) _ e1 in
      Read-rest n o1 signatures o2 (ok p) d
        (take_arrays-Arrays 64 "signature" bytes slice n o1 signatures o2 (behind_count n o1 d) f2)
        e2

  pub parse_panic-Read : parse_transaction bytes ≡ panic → Read panic
  unfolding parse_transaction
  parse_panic-Read e = elim (>>=-eq-panic (decode_compact_u16 bytes 0) _ e) [
    | inl f ↦ absurd (decode-ne-panic bytes 0 f)
    | inr ((n, o1), f1, e1) ↦
        let d = decode-Decoded bytes slice.all_bytes 0 n o1 f1 in
        let room = behind_count n o1 d in
        elim (>>=-eq-panic (take_arrays 64 "signature" n bytes o1) _ e1) [
          | inl f ↦ absurd (take_arrays-ne-panic 64 "signature" bytes slice n o1 room f)
          | inr ((signatures, o2), f2, e2) ↦
              Read-rest n o1 signatures o2 panic d
                (take_arrays-Arrays 64 "signature" bytes slice n o1 signatures o2 room f2) e2
        ]
  ]

  -- The message of a frame is a slice too.
  pub Frame-IsSlice :
      (signatures : List (List ℕ)) (message : List ℕ)
      → Frame bytes signatures message
      → IsSlice message
  Frame-IsSlice signatures message f =
      let at0 : At bytes 0 (f.count ++ (joined signatures ++ message)) = record {
        within = omega arith;
        behind = f.layout;
      } in
      let at1 = At-advance f.count (joined signatures ++ message) at0 in
      let at2 = At-advance (joined signatures) message at1 in
      record {
        fits = omega (arith, slice.fits, At-room at2);
        all_bytes = rw at2.behind at (
            All-drop IsByte (0 + length f.count + length (joined signatures)) bytes
              slice.all_bytes);
      }
