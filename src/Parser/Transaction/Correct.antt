-- ===== src/Parser/Transaction/Correct.antt =====
-- `parse_transaction` against the wire format: what it accepts, what it returns, when it panics.
use kv260_sigverify.Prelude.{
  ℕ, ◌≤◌, ◌<◌, ◌≡◌, ◌≢◌, ◌↔◌, ◌⊎◌, ◌%◌, ◌^◌, ◌∙◌, refl, ap, List, ok, panic, >>=-eq-ok,
  >>=-eq-panic, inl, inr, arith, length,
}
use mathlib.Core.Path.{subst}
use native.Mathlib.Decide.{dec_le}
use kv260_sigverify.Parser.Types.{ParsedTransaction, ParsedMessage}
use kv260_sigverify.Parser.Message.{parse_message}
use kv260_sigverify.Parser.Message.Accepts.{parse_message-accepts}
use kv260_sigverify.Parser.Message.Sound.{parse_message-ne-panic}
use kv260_sigverify.Parser.Transaction.{assemble, parse_transaction}
use kv260_sigverify.Parser.Transaction.Assemble.{
  Checked, IsAccepted, IsTransaction, IsMiscounted, IsOverSigned, parsed, assemble_ok,
  assemble_panic, read-Checked,
}
use kv260_sigverify.Parser.Transaction.Frame.{
  Frame, parse-Frame, parse_ok-Read, parse_panic-Read, Frame-IsSlice,
}
use kv260_sigverify.Parser.Transaction.Jobs.{length-pair_up}
use kv260_sigverify.Parser.Skips.{IsSlice}

IsAccepted-of :
    (bytes : List ℕ) (signatures : List (List ℕ)) (message : List ℕ) (info : ParsedMessage)
    → Frame bytes signatures message
    → Checked signatures message info
    → length signatures ≤ length info.static_account_keys
    → IsAccepted bytes (parsed bytes signatures message info)
IsAccepted-of bytes signatures message info f c h = record {
  signatures = signatures;
  info = info;
  frame = f;
  checked = c;
  indexed = h;
  bytes_eq = refl;
  version_eq = refl;
  required_eq = refl;
  jobs_eq = refl;
}

-- The fields of an `IsAccepted` say all of the result.
transaction_eq :
    (bytes : List ℕ) (p : ParsedTransaction) (t : IsAccepted bytes p)
    → parsed bytes t.signatures p.message_bytes t.info ≡ p
transaction_eq bytes p t = ground (arith, t.bytes_eq, t.version_eq, t.required_eq, t.jobs_eq)

-- On every slice that is framed as a transaction, whose message parses, whose count of signatures
-- agrees with the header's in its low byte, and that has at least as many account keys as signatures
-- and as the header asks for, `parse_transaction` returns its message bytes, version and signature count, and each
-- signature paired with the account key at its place.
pub parse_transaction-accepts :
    (bytes : List ℕ) (p : ParsedTransaction)
    → IsSlice bytes
    → IsAccepted bytes p
    → parse_transaction bytes ≡ ok p
parse_transaction-accepts bytes p slice t =
    let c = t.checked in
    rw
      (
        parse-Frame bytes slice t.signatures p.message_bytes t.frame,
        parse_message-accepts p.message_bytes t.info
            (Frame-IsSlice bytes slice t.signatures p.message_bytes t.frame) c.message_ok,
        assemble_ok bytes t.signatures p.message_bytes t.info c.same_low_byte c.enough t.indexed,
      )
      (ap ok (transaction_eq bytes p t))

over_signed_panics :
    (bytes : List ℕ) → IsSlice bytes → IsOverSigned bytes → parse_transaction bytes ≡ panic
over_signed_panics bytes slice o =
    let c = o.checked in
    rw (
      parse-Frame bytes slice o.signatures o.message o.frame,
      parse_message-accepts o.message o.info
          (Frame-IsSlice bytes slice o.signatures o.message o.frame) c.message_ok,
      assemble_panic bytes o.signatures o.message o.info c.same_low_byte c.enough o.few_keys,
    )

accepted :
    (bytes : List ℕ) (signatures : List (List ℕ)) (message : List ℕ) (info : ParsedMessage)
    (p : ParsedTransaction)
    → Frame bytes signatures message
    → Checked signatures message info
    → assemble bytes signatures (length signatures) message info ≡ ok p
    → IsAccepted bytes p
accepted bytes signatures message info p f c e =
    elim (dec_le (length signatures) (length info.static_account_keys)) [
      | yes indexed ↦
          let same : parsed bytes signatures message info ≡ p =
            cc (assemble_ok bytes signatures message info c.same_low_byte c.enough indexed) in
          subst (IsAccepted bytes) same (IsAccepted-of bytes signatures message info f c indexed)
      | no few ↦
          cc (assemble_panic bytes signatures message info c.same_low_byte c.enough (omega arith))
    ]

refused :
    (bytes : List ℕ) (signatures : List (List ℕ)) (message : List ℕ) (info : ParsedMessage)
    → Frame bytes signatures message
    → Checked signatures message info
    → assemble bytes signatures (length signatures) message info ≡ panic
    → IsOverSigned bytes
refused bytes signatures message info f c e =
    elim (dec_le (length signatures) (length info.static_account_keys)) [
      | yes indexed ↦
          cc (assemble_ok bytes signatures message info c.same_low_byte c.enough indexed)
      | no few ↦ record {
        signatures = signatures;
        message = message;
        info = info;
        frame = f;
        checked = c;
        few_keys = omega arith;
      }
    ]

panicked : (bytes : List ℕ) → IsSlice bytes → parse_transaction bytes ≡ panic → IsOverSigned bytes
panicked bytes slice e =
    let read = parse_panic-Read bytes slice e in
    let message-IsSlice = Frame-IsSlice bytes slice read.signatures read.message read.frame in
    elim (>>=-eq-panic (parse_message read.message) _ read.rest_eq) [
      | inl f ↦ absurd (parse_message-ne-panic read.message message-IsSlice f)
      | inr (info, e1, e2) ↦
          refused bytes read.signatures read.message info read.frame
            (read-Checked bytes slice panic read.signatures read.message info read.frame (λ e h. cc)
              e1 e2)
            e2
    ]

parse_ok-IsAccepted :
    (bytes : List ℕ) (p : ParsedTransaction)
    → IsSlice bytes
    → parse_transaction bytes ≡ ok p
    → IsAccepted bytes p
parse_ok-IsAccepted bytes p slice e =
    let read = parse_ok-Read bytes slice p e in
    let (info, e1, e2) = >>=-eq-ok (parse_message read.message) _ read.rest_eq in
    let c =
      read-Checked bytes slice (ok p) read.signatures read.message info read.frame (λ e h. cc) e1
        e2 in
    accepted bytes read.signatures read.message info p read.frame c e2

-- An accepted slice has as many jobs as signatures, and the header's count is the low byte of theirs.
accepted_counts :
    (bytes : List ℕ) (p : ParsedTransaction) (a : IsAccepted bytes p)
    → (length p.jobs ≡ length a.signatures)
      × (length a.signatures % 2 ^ 8 ≡ p.num_required_signatures)
accepted_counts bytes p a =
    let count = length-pair_up 0 a.info.static_account_keys a.signatures a.indexed in
    (ap length a.jobs_eq ∙ count, omega (arith, a.checked.same_low_byte, a.required_eq))

-- Whatever slice `parse_transaction` accepts is a transaction of the wire format, with the header's
-- count of signatures and a key for each, or it has 256 signatures or more and a header whose count
-- agrees with theirs in the low byte alone; the result has the message's bytes and version, the
-- header's count, and each signature paired with the account key at its place.
pub parse_transaction_sound :
    (bytes : List ℕ) (p : ParsedTransaction)
    → IsSlice bytes
    → parse_transaction bytes ≡ ok p
    → IsTransaction bytes p ⊎ IsMiscounted bytes p
parse_transaction_sound bytes p slice e =
    let a = parse_ok-IsAccepted bytes p slice e in
    let (same, low) = accepted_counts bytes p a in
    elim (dec_le 256 (length a.signatures)) [
      | yes many ↦ inr (record { accepted = a; too_many = many })
      | no few ↦ inl (record { accepted = a; one_each = omega (arith, few, low) })
    ]

-- With fewer than 256 jobs it is a transaction of the wire format.
pub few_jobs-IsTransaction :
    (bytes : List ℕ) (p : ParsedTransaction)
    → IsSlice bytes
    → parse_transaction bytes ≡ ok p
    → length p.jobs < 256
    → IsTransaction bytes p
few_jobs-IsTransaction bytes p slice e few = elim (parse_transaction_sound bytes p slice e) [
  | inl transaction ↦ transaction
  | inr m ↦
      let (same, low) = accepted_counts bytes p m.accepted in
      absurd (omega (arith, same, m.too_many, few))
]

-- `parse_transaction` accepts a slice with another count of jobs than the header asks for exactly
-- if the slice has 256 signatures or more, in the low byte as many as the header asks for, and
-- passes the other checks.
pub parse_transaction-IsMiscounted_iff :
    (bytes : List ℕ) (p : ParsedTransaction)
    → IsSlice bytes
    → ((parse_transaction bytes ≡ ok p) × (length p.jobs ≢ p.num_required_signatures))
      ↔ IsMiscounted bytes p
parse_transaction-IsMiscounted_iff bytes p slice = (
  λ x. elim (parse_transaction_sound bytes p slice x.0) [
    | inl t ↦
        let (same, low) = accepted_counts bytes p t.accepted in absurd (x.1 (same ∙ t.one_each))
    | inr m ↦ m
  ],
  λ m.
      let (same, low) = accepted_counts bytes p m.accepted in
      (
        parse_transaction-accepts bytes p slice m.accepted,
        λ e. omega (arith, same, low, m.too_many, e),
      ),
)

-- `parse_transaction` panics on exactly the slices that are framed as a transaction, whose message
-- parses, whose count of signatures agrees with the header in its low byte, and that have account
-- keys for the header's count but fewer account keys than signatures.
pub parse_transaction-panic_iff :
    (bytes : List ℕ) → IsSlice bytes → (parse_transaction bytes ≡ panic) ↔ IsOverSigned bytes
parse_transaction-panic_iff bytes slice =
    (λ e. panicked bytes slice e, over_signed_panics bytes slice)
