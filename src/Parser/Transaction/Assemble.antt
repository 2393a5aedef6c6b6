-- ===== src/Parser/Transaction/Assemble.antt =====
-- What stands behind the frame of a transaction: its checks, and the result or the panic.
use kv260_sigverify.Prelude.{
  ℕ, ◌%◌, ◌^◌, ◌≤◌, ◌<◌, ◌≡◌, ◌≢◌, refl, sym, List, Outcome, ok, err, panic, arith, length,
  ltb-false, ltb_false_lem, Bool, ==_iff, true, false, if◌then◌else◌,
}
use kv260_sigverify.Parser.Types.{ParsedTransaction, ParsedMessage, ParseError, Parse}
use kv260_sigverify.Parser.Grammar.{IsMessage}
use kv260_sigverify.Parser.Message.{parse_message}
use kv260_sigverify.Parser.Message.Sound.{parse_message_sound}
use kv260_sigverify.Parser.Transaction.{assemble}
use kv260_sigverify.Parser.Transaction.Frame.{Frame, Frame-IsSlice}
use kv260_sigverify.Parser.Transaction.Jobs.{pair_up, build_jobs-pair_up, build_jobs_panic}
use kv260_sigverify.Parser.Skips.{IsSlice}

-- What the checks behind the frame compare: the header's count is the low byte of the count of
-- signatures, and there are account keys for the header's count.
pub record Checked (signatures : List (List ℕ)) (message : List ℕ) (info : ParsedMessage)
    : Type 0 where
  pub message_ok : IsMessage message info
  pub same_low_byte : length signatures % 2 ^ 8 ≡ info.num_required_signatures
  pub enough : info.num_required_signatures ≤ length info.static_account_keys

-- Bytes that are framed as a transaction, whose checks pass and that have a key for each signature,
-- and what `parse_transaction` returns for them.
pub record IsAccepted (bytes : List ℕ) (p : ParsedTransaction) : Type 0 where
  pub signatures : List (List ℕ)
  pub info : ParsedMessage
  pub frame : Frame bytes signatures p.message_bytes
  pub checked : Checked signatures p.message_bytes info
  pub indexed : length signatures ≤ length info.static_account_keys
  pub bytes_eq : p.transaction_bytes ≡ bytes
  pub version_eq : p.message_version ≡ info.message_version
  pub required_eq : p.num_required_signatures ≡ info.num_required_signatures
  pub jobs_eq : p.jobs ≡ pair_up 0 info.static_account_keys signatures

-- A transaction of the wire format, which has one signature for each that its header asks for.
pub record IsTransaction (bytes : List ℕ) (p : ParsedTransaction) : Type 0 where
  pub accepted : IsAccepted bytes p
  pub one_each : length accepted.signatures ≡ p.num_required_signatures

-- No transaction of the wire format: at least 256 signatures, while the header's count is the low byte
-- of theirs. The checks, which compare with that byte, pass.
pub record IsMiscounted (bytes : List ℕ) (p : ParsedTransaction) : Type 0 where
  pub accepted : IsAccepted bytes p
  pub too_many : 256 ≤ length accepted.signatures

-- The checks pass, but there are more signatures than account keys.
pub record IsOverSigned (bytes : List ℕ) : Type 0 where
  pub signatures : List (List ℕ)
  pub message : List ℕ
  pub info : ParsedMessage
  pub frame : Frame bytes signatures message
  pub checked : Checked signatures message info
  pub few_keys : length info.static_account_keys < length signatures

-- Where the result is no error, the guards on the way were passed.
module _ {E A : Type 0} (r : Outcome E A) (calm : (e : E) → r ≢ err e) where
  then_taken :
      (c : Bool) (m : Outcome E A) (e : E) → (if c then m else err e) ≡ r → (c ≡ true) × (m ≡ r)
  then_taken true m e h = (refl, h)
  then_taken false m e h = absurd (calm e (sym h))

  else_taken :
      (c : Bool) (m : Outcome E A) (e : E) → (if c then err e else m) ≡ r → (c ≡ false) × (m ≡ r)
  else_taken true m e h = absurd (calm e (sym h))
  else_taken false m e h = (refl, h)

abbrev pub parsed : List ℕ → List (List ℕ) → List ℕ → ParsedMessage → ParsedTransaction
parsed bytes signatures message info = record {
  transaction_bytes = bytes;
  message_bytes = message;
  message_version = info.message_version;
  num_required_signatures = info.num_required_signatures;
  jobs = pair_up 0 info.static_account_keys signatures;
}

module _ (bytes : List ℕ) (signatures : List (List ℕ)) (message : List ℕ)
    (info : ParsedMessage) where
  pub assemble_ok :
      length signatures % 2 ^ 8 ≡ info.num_required_signatures
      → info.num_required_signatures ≤ length info.static_account_keys
      → length signatures ≤ length info.static_account_keys
      → assemble bytes signatures (length signatures) message info
        ≡ ok (parsed bytes signatures message info)
  unfolding assemble
  assemble_ok low enough indexed = rw (
    (==_iff (length signatures % 2 ^ 8) info.num_required_signatures).1 low,
    ltb-false (length info.static_account_keys) info.num_required_signatures enough,
    build_jobs-pair_up info.static_account_keys 0 signatures (omega arith),
  )

  pub assemble_panic :
      length signatures % 2 ^ 8 ≡ info.num_required_signatures
      → info.num_required_signatures ≤ length info.static_account_keys
      → length info.static_account_keys < length signatures
      → assemble bytes signatures (length signatures) message info ≡ panic
  unfolding assemble
  assemble_panic low enough few = rw (
    (==_iff (length signatures % 2 ^ 8) info.num_required_signatures).1 low,
    ltb-false (length info.static_account_keys) info.num_required_signatures enough,
    build_jobs_panic info.static_account_keys 0 signatures (omega arith) (omega arith),
  )

  -- Where the result is no error the checks passed.
  assemble_checks :
      (r : Parse ParsedTransaction)
      → ((e : ParseError) → r ≢ err e)
      → assemble bytes signatures (length signatures) message info ≡ r
      → (length signatures % 2 ^ 8 ≡ info.num_required_signatures)
        × (info.num_required_signatures ≤ length info.static_account_keys)
  unfolding assemble
  assemble_checks r calm e =
      let (low, e1) = then_taken r calm _ _ _ e in
      let (enough, e2) = else_taken r calm _ _ _ e1 in
      ((==_iff _ _).0 low, ltb_false_lem _ _ enough)

-- A frame whose message parses and whose checks pass, from a result that is no error.
module _ (bytes : List ℕ) (slice : IsSlice bytes) (r : Parse ParsedTransaction) where
  pub read-Checked :
      (signatures : List (List ℕ)) (message : List ℕ) (info : ParsedMessage)
      → Frame bytes signatures message
      → ((e : ParseError) → r ≢ err e)
      → parse_message message ≡ ok info
      → assemble bytes signatures (length signatures) message info ≡ r
      → Checked signatures message info
  read-Checked signatures message info f calm e1 e2 =
      let (low, enough) = assemble_checks bytes signatures message info r calm e2 in
      record {
        message_ok =
            parse_message_sound message info (Frame-IsSlice bytes slice signatures message f) e1;
        same_low_byte = low;
        enough = enough;
      }
