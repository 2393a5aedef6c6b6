-- ===== src/Api/Jobs.antt =====
-- The widths of the jobs that api.rs hands to the accelerator.
use kv260_sigverify.Prelude.{
  ℕ, suc, ◌+◌, ◌*◌, ◌≤◌, ◌≡◌, refl, ap, List, [], ◌∷◌, ◌++◌, String, ok, length, All, length-append,
  arith, >>=-eq-ok, ltb-false, if◌then◌else◌,
}
use kv260_sigverify.Accelerator.Types.{VerificationJob, job_size, max_job_count}
use kv260_sigverify.Accelerator.Batch.{jobs_bytes, check_jobs_size}
use kv260_sigverify.Api.Types.{BatchJobRequest, Crates}
use kv260_sigverify.Api.Build.{Service, decode_base64, decode_fixed_base64, decode_jobs}

-- The two fields of a job that the daemon decodes have the widths of the hardware's job.
abbrev pub IsJob : VerificationJob → Type 0
IsJob job = (length job.pubkey ≡ 32) × (length job.signature ≡ 64)

ok_injective : {A : Type 0} {a b : A} → ◌≡◌ {A = Service A} (ok a) (ok b) → a ≡ b
ok_injective h = cc

length-jobs_bytes :
    (jobs : List VerificationJob) → All IsJob jobs → length (jobs_bytes jobs) ≡ 96 * length jobs
unfolding jobs_bytes
length-jobs_bytes [] all = refl
length-jobs_bytes (job ∷ jobs) all = omega (
  arith,
  length-append job.pubkey (job.signature ++ jobs_bytes jobs),
  length-append job.signature (jobs_bytes jobs),
  length-jobs_bytes jobs all.1,
  all.0.0,
  all.0.1,
)

module _ (c : Crates) where
  decode_fixed_base64-length :
      (n : ℕ) (value label : String) {bytes : List ℕ}
      → decode_fixed_base64 c n value label ≡ ok bytes
      → length bytes ≡ n
  unfolding decode_fixed_base64
  decode_fixed_base64-length n value label e =
      let (bs, d, r) = >>=-eq-ok (decode_base64 c value label) _ e in ground arith

  pub decode_jobs-length :
      (i : ℕ) (requests : List BatchJobRequest) {jobs : List VerificationJob}
      → decode_jobs c i requests ≡ ok jobs
      → (length jobs ≡ length requests) × All IsJob jobs
  unfolding decode_jobs
  decode_jobs-length i [] e = let same = ok_injective e in rw (← same) (refl, tt)
  decode_jobs-length i (job ∷ rest) e =
      let (key, e1, r1) = >>=-eq-ok (decode_fixed_base64 c 32 job.pubkey _) _ e in
      let (signature, e2, r2) = >>=-eq-ok (decode_fixed_base64 c 64 job.signature _) _ r1 in
      let (jobs, e3, r3) = >>=-eq-ok (decode_jobs c (i + 1) rest) _ r2 in
      let (count, all) = decode_jobs-length (i + 1) rest e3 in
      rw (← ok_injective r3) (
        ap suc count,
        ((decode_fixed_base64-length 32 _ _ e1, decode_fixed_base64-length 64 _ _ e2), all),
      )

-- `check_jobs_size` refuses no batch that has passed the check on the count: 255 jobs of 32 and 64
-- bytes fit in the job region.
pub check_jobs_size-fits :
    (jobs : List VerificationJob)
    → All IsJob jobs
    → length jobs ≤ max_job_count
    → (length (jobs_bytes jobs) ≡ 96 * length jobs) × (check_jobs_size (jobs_bytes jobs) ≡ ok tt)
unfolding check_jobs_size
check_jobs_size-fits jobs all le =
    let count = length-jobs_bytes jobs all in
    (count, rw (ltb-false job_size (length (jobs_bytes jobs)) (omega arith), if◌then◌else◌) refl)
