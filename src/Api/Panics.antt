-- ===== src/Api/Panics.antt =====
-- Where the builders of api.rs can panic: in `parse_transaction` alone.
use kv260_sigverify.Prelude.{
  Bool-cases, inl, inr, ℕ, ◌+◌, ◌≡◌, refl, List, [], ◌∷◌, String, Bool, true, false, ◌⊎◌, inl, inr,
  Outcome, ok, err, panic, ◌>>=◌, map_err, length, ◌==◌, if◌then◌else◌,
}
use kv260_sigverify.ServiceError.{ServiceError, ErrorKind}
use kv260_sigverify.Parser.Transaction.{parse_transaction}
use kv260_sigverify.Prelude.Format.{◌⧺◌}
use kv260_sigverify.StdText.{trim}
use kv260_sigverify.ServiceError
use kv260_sigverify.Api.Types.{
  BuiltRequest, Crates, EncodedPayload, BatchJobRequest, VerifyBatchRequest,
  VerifyTransactionRequest, base64, hex,
}
use kv260_sigverify.Api.Build.{
  Service, call, parse_json, decode_base64, decode_payload, decode_fixed_base64, decode_jobs,
  build_logical_batch_request, build_transaction_batch_request, with_valid_timeout,
  validate_timeout_ms,
}

-- Where a step panics, `X` holds.
abbrev pub Panics : {A : Type 0} → Type 0 → Service A → Type 0
Panics X m = m ≡ panic → X

bind-Panics :
    {A B X : Type 0} (m : Service A) (f : A → Service B)
    → Panics X m
    → ((a : A) → m ≡ ok a → Panics X (f a))
    → Panics X (m >>= f)
bind-Panics (ok a) f pm pf e = pf a refl e
bind-Panics (err x) f pm pf e = cc
bind-Panics panic f pm pf e = pm refl

if-Panics :
    {A X : Type 0} (b : Bool) (m n : Service A)
    → Panics X m
    → Panics X n
    → Panics X (if b then m else n)
if-Panics true m n pm pn = pm
if-Panics false m n pm pn = pn

ok-Panics : {A X : Type 0} (a : A) → Panics X (ok a)
ok-Panics a e = cc

err-Panics : {A X : Type 0} (x : ServiceError) → Panics {A = A} X (err x)
err-Panics x e = cc

call-Panics :
    {A X : Type 0} (on_error : String → ServiceError) (r : String ⊎ A) → Panics X (call on_error r)
call-Panics on_error (inl text) e = cc
call-Panics on_error (inr a) e = cc

call-ok :
    {A : Type 0} (on_error : String → ServiceError) (r : String ⊎ A) {a : A}
    → call on_error r ≡ ok a
    → r ≡ inr a
call-ok on_error (inl text) e = cc
call-ok on_error (inr a) e = cc

map_err-Panics :
    {E A X : Type 0} (f : E → ServiceError) (m : Outcome E A)
    → (m ≡ panic → X)
    → Panics X (map_err f m)
map_err-Panics f (ok a) why e = cc
map_err-Panics f (err x) why e = cc
map_err-Panics f panic why e = why refl

module _ {X : Type 0} (c : Crates) where
  decode_base64-Panics : (value label : String) → Panics X (decode_base64 c value label)
  unfolding decode_base64
  decode_base64-Panics value label = call-Panics _ (c.base64_decode _)

  decode_payload-Panics :
      (payload : EncodedPayload) (label : String) → Panics X (decode_payload c payload label)
  unfolding decode_payload
  decode_payload-Panics payload label =
      elim payload.encoding
        as (λ x. Panics X (elim x [
          | base64 ↦ decode_base64 c payload.data_text label
          | hex ↦
              call
                (λ error. ServiceError.parse "invalid_hex" ("invalid hex " ⧺ label ⧺ ": " ⧺ error))
                (c.hex_decode (trim payload.data_text))
        ])) [
          | base64 ↦ decode_base64-Panics payload.data_text label
          | hex ↦ call-Panics _ (c.hex_decode _)
        ]

  decode_fixed_base64-Panics :
      (n : ℕ) (value label : String) → Panics X (decode_fixed_base64 c n value label)
  unfolding decode_fixed_base64
  decode_fixed_base64-Panics n value label =
      bind-Panics (decode_base64 c value label) _ (decode_base64-Panics value label) (λ bytes e.
        elim (Bool-cases (length bytes == n)) [
          | inl same ↦ rw same (ok-Panics bytes)
          | inr other ↦ rw other (err-Panics _)
        ])

  decode_jobs-Panics : (i : ℕ) (jobs : List BatchJobRequest) → Panics X (decode_jobs c i jobs)
  unfolding decode_jobs
  decode_jobs-Panics i [] = ok-Panics []
  decode_jobs-Panics i (job ∷ rest) =
      bind-Panics (decode_fixed_base64 c 32 _ _) _ (decode_fixed_base64-Panics 32 _ _) (λ key e.
        bind-Panics (decode_fixed_base64 c 64 _ _) _ (decode_fixed_base64-Panics 64 _ _)
          (λ signature e.
            bind-Panics (decode_jobs c (i + 1) rest) _ (decode_jobs-Panics (i + 1) rest)
              (λ jobs e. ok-Panics _)))

  pub build_logical-Panics :
      (request : VerifyBatchRequest) → Panics X (build_logical_batch_request c request)
  unfolding build_logical_batch_request
  build_logical-Panics request =
      bind-Panics (decode_payload c request.message "message") _ (decode_payload-Panics _ _)
        (λ message e. if-Panics (length message == 0) _ _ (err-Panics _) (
          if-Panics (length request.jobs == 0) _ _ (err-Panics _) (
            bind-Panics (decode_jobs c 0 request.jobs) _ (decode_jobs-Panics 0 request.jobs)
              (λ jobs e. ok-Panics _))))

  pub build_transaction-Panics :
      (request : VerifyTransactionRequest)
      → ((bytes : List ℕ)
          → decode_payload c request.transaction "transaction" ≡ ok bytes
          → parse_transaction bytes ≡ panic
          → X)
      → Panics X (build_transaction_batch_request c request)
  unfolding build_transaction_batch_request
  build_transaction-Panics request why =
      bind-Panics (decode_payload c request.transaction "transaction") _ (decode_payload-Panics _ _)
        (λ bytes e.
          bind-Panics (map_err _ (parse_transaction bytes)) _
            (map_err-Panics _ (parse_transaction bytes) (why bytes e))
            (λ parsed e2. if-Panics (length parsed.jobs == 0) _ _ (err-Panics _) (ok-Panics _)))

  with_valid_timeout-Panics : (request : BuiltRequest) → Panics X (with_valid_timeout request)
  unfolding with_valid_timeout validate_timeout_ms
  with_valid_timeout-Panics request =
      bind-Panics (validate_timeout_ms request.timeout_ms) _
        (if-Panics (request.timeout_ms == 0) _ _ (err-Panics _) (ok-Panics tt))
        (λ done e. ok-Panics _)

  -- From the body to the request as built, for either kind of request.
  pub request-Panics :
      {T : Type 0} (from_slice : List ℕ → String ⊎ T) (build : T → Service BuiltRequest)
      (body : List ℕ)
      → ((request : T) → from_slice body ≡ inr request → Panics X (build request))
      → Panics X (parse_json from_slice body >>= build >>= with_valid_timeout)
  unfolding parse_json
  request-Panics from_slice build body builds =
      bind-Panics (parse_json from_slice body >>= build) _
        (bind-Panics (parse_json from_slice body) _ (call-Panics _ (from_slice body))
          (λ request e. builds request (call-ok _ (from_slice body) e)))
        (λ request e. with_valid_timeout-Panics request)
