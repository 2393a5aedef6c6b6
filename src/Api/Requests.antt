-- ===== src/Api/Requests.antt =====
-- What the builders of api.rs refuse, and what the batches that they build are like.
use kv260_sigverify.Prelude.{
  Bool-cases, inl, inr, ℕ, ◌+◌, ◌≡◌, refl, subst, List, [], ◌∷◌, String, ◌⊎◌, inl, inr, Outcome, ok,
  err, panic, ◌>>=◌, map_err, length, ◌==◌, Bool, true, false, if◌then◌else◌,
}
use kv260_sigverify.Prelude.Format.{◌⧺◌}
use kv260_sigverify.StdText.{trim}
use kv260_sigverify.Parser.Transaction.{parse_transaction}
use kv260_sigverify.ServiceError
use kv260_sigverify.ServiceError.{ServiceError, ErrorKind}
use kv260_sigverify.Api.Types.{
  BatchJobRequest, VerifyBatchRequest, VerifyTransactionRequest, EncodedPayload, BuiltRequest,
  Crates, base64, hex,
}
use kv260_sigverify.Api.Build.{
  Service, call, parse_json, decode_base64, decode_payload, decode_fixed_base64, decode_jobs,
  build_logical_batch_request, build_transaction_batch_request, with_valid_timeout,
  validate_timeout_ms,
}
use kv260_sigverify.Api.Handlers.{status_code_for_error}

-- Errors that a response shows as a bad request.
abbrev pub IsBad : ServiceError → Type 0
IsBad e = status_code_for_error e.kind ≡ 400

-- A result with no error, or with one of these.
abbrev pub Refuses : {A : Type 0} → Service A → Type 0
Refuses m = (e : ServiceError) → m ≡ err e → IsBad e

pub bind-Refuses :
    {A B : Type 0} (m : Service A) (f : A → Service B)
    → Refuses m
    → ((a : A) → Refuses (f a))
    → Refuses (m >>= f)
bind-Refuses (ok a) f bad rest e h = rest a e h
bind-Refuses (err x) f bad rest e h = bad e cc
bind-Refuses panic f bad rest e h = cc

pub err-Refuses : {A : Type 0} (x : ServiceError) → IsBad x → Refuses {A = A} (err x)
err-Refuses {A} x bad e h = let same : x ≡ e = cc in subst IsBad same bad

ok-Refuses : {A : Type 0} (a : A) → Refuses {A = A} (ok a)
ok-Refuses a e h = cc

if-Refuses :
    {A : Type 0} (b : Bool) (x y : Service A) → Refuses x → Refuses y → Refuses (if b then x else y)
if-Refuses true x y bad_x bad_y = bad_x
if-Refuses false x y bad_x bad_y = bad_y

map_err-Refuses :
    {E A : Type 0} (f : E → ServiceError) (m : Outcome E A)
    → ((x : E) → IsBad (f x))
    → Refuses (map_err f m)
map_err-Refuses f (ok a) bad e h = ok-Refuses a e h
map_err-Refuses f (err x) bad e h = err-Refuses (f x) (bad x) e h
map_err-Refuses f panic bad e h = cc

call-Refuses :
    {A : Type 0} (on_error : String → ServiceError) (r : String ⊎ A)
    → ((text : String) → IsBad (on_error text))
    → Refuses (call on_error r)
call-Refuses on_error (inl text) bad e h = err-Refuses (on_error text) (bad text) e h
call-Refuses on_error (inr a) bad e h = cc

module _ (c : Crates) where
  decode_base64-Refuses : (value label : String) → Refuses (decode_base64 c value label)
  unfolding decode_base64 status_code_for_error
  decode_base64-Refuses value label = call-Refuses _ (c.base64_decode _) (λ text. refl)

  decode_payload-Refuses :
      (payload : EncodedPayload) (label : String) → Refuses (decode_payload c payload label)
  unfolding decode_payload status_code_for_error
  decode_payload-Refuses payload label =
      elim payload.encoding
        as (λ x. Refuses (elim x [
          | base64 ↦ decode_base64 c payload.data_text label
          | hex ↦
              call
                (λ error. ServiceError.parse "invalid_hex" ("invalid hex " ⧺ label ⧺ ": " ⧺ error))
                (c.hex_decode (trim payload.data_text))
        ])) [
          | base64 ↦ decode_base64-Refuses payload.data_text label
          | hex ↦ call-Refuses _ (c.hex_decode _) (λ text. refl)
        ]

  decode_fixed_base64-Refuses :
      (n : ℕ) (value label : String) → Refuses (decode_fixed_base64 c n value label)
  unfolding decode_fixed_base64 status_code_for_error
  decode_fixed_base64-Refuses n value label =
      bind-Refuses (decode_base64 c value label) _ (decode_base64-Refuses value label) (λ bytes.
        elim (Bool-cases (length bytes == n)) [
          | inl same ↦ rw same (ok-Refuses bytes)
          | inr other ↦ rw other (err-Refuses _ refl)
        ])

  decode_jobs-Refuses : (i : ℕ) (jobs : List BatchJobRequest) → Refuses (decode_jobs c i jobs)
  unfolding decode_jobs
  decode_jobs-Refuses i [] = ok-Refuses []
  decode_jobs-Refuses i (job ∷ rest) =
      bind-Refuses (decode_fixed_base64 c 32 _ _) _ (decode_fixed_base64-Refuses 32 _ _) (λ key.
        bind-Refuses (decode_fixed_base64 c 64 _ _) _ (decode_fixed_base64-Refuses 64 _ _)
          (λ signature.
            bind-Refuses (decode_jobs c (i + 1) rest) _ (decode_jobs-Refuses (i + 1) rest)
              (λ jobs. ok-Refuses _)))

  build_logical-Refuses :
      (request : VerifyBatchRequest) → Refuses (build_logical_batch_request c request)
  unfolding build_logical_batch_request status_code_for_error
  build_logical-Refuses request =
      bind-Refuses (decode_payload c request.message "message") _ (decode_payload-Refuses _ _)
        (λ message. if-Refuses (length message == 0) _ _ (err-Refuses _ refl) (
          if-Refuses (length request.jobs == 0) _ _ (err-Refuses _ refl) (
            bind-Refuses (decode_jobs c 0 request.jobs) _ (decode_jobs-Refuses 0 request.jobs)
              (λ jobs. ok-Refuses _))))

  build_transaction-Refuses :
      (request : VerifyTransactionRequest) → Refuses (build_transaction_batch_request c request)
  unfolding build_transaction_batch_request status_code_for_error
  build_transaction-Refuses request =
      bind-Refuses (decode_payload c request.transaction "transaction") _
        (decode_payload-Refuses _ _)
        (λ bytes.
          bind-Refuses (map_err _ (parse_transaction bytes)) _
            (map_err-Refuses _ (parse_transaction bytes) (λ x. refl))
            (λ parsed.
              if-Refuses (length parsed.jobs == 0) _ _ (err-Refuses _ refl) (ok-Refuses _)))

  with_valid_timeout-Refuses : (request : BuiltRequest) → Refuses (with_valid_timeout request)
  unfolding with_valid_timeout validate_timeout_ms status_code_for_error
  with_valid_timeout-Refuses request =
      bind-Refuses (validate_timeout_ms request.timeout_ms) _
        (if-Refuses (request.timeout_ms == 0) _ _ (err-Refuses _ refl) (ok-Refuses tt))
        (λ done. ok-Refuses _)

  pub logical_request-Refuses :
      (body : List ℕ)
      → Refuses (
          parse_json c.batch_from_slice body
          >>= build_logical_batch_request c
          >>= with_valid_timeout)
  unfolding parse_json status_code_for_error
  logical_request-Refuses body =
      bind-Refuses (parse_json c.batch_from_slice body >>= build_logical_batch_request c) _
        (bind-Refuses (parse_json c.batch_from_slice body) _
          (call-Refuses _ (c.batch_from_slice body) (λ text. refl)) build_logical-Refuses)
        with_valid_timeout-Refuses

  pub transaction_request-Refuses :
      (body : List ℕ)
      → Refuses (
          parse_json c.transaction_from_slice body
          >>= build_transaction_batch_request c
          >>= with_valid_timeout)
  unfolding parse_json status_code_for_error
  transaction_request-Refuses body =
      bind-Refuses (parse_json c.transaction_from_slice body >>= build_transaction_batch_request c)
        _
        (bind-Refuses (parse_json c.transaction_from_slice body) _
          (call-Refuses _ (c.transaction_from_slice body) (λ text. refl)) build_transaction-Refuses)
        with_valid_timeout-Refuses
