-- ===== src/Accelerator/Audit/Example.antt =====
-- Watched runs of accelerator.rs, and a writer of words that keeps a log.
use kv260_sigverify.Prelude.{ℕ, ◌≡◌, ◌∷◌, [], ◌++◌, List, ok, true, refl, arith}
use kv260_sigverify.Accelerator.Host.{M}
use kv260_sigverify.Accelerator.LittleEndian.{full_word, last_word}
use kv260_sigverify.Accelerator.Words.{write_bytes_as_u32_words, full_words, tail_word, zero_words}
use kv260_sigverify.Accelerator.Words.Fill.{words_of, padded}
use kv260_sigverify.Accelerator.Words.Padded.{put_words, write_bytes_as_u32_words-put_words}
use kv260_sigverify.Accelerator.Batch.{verify_batch}
use kv260_sigverify.Accelerator.Examples.{ready_host, mem_config, one_request}
use kv260_sigverify.Accelerator.Audit.{audited}
use kv260_sigverify.Accelerator.Audit.Runs.{verify_batch-audited}

verify_batch-audited_example :
    ((verify_batch (audited ready_host) 3 mem_config one_request (tt, true)).1.1 ≡ true)
    × ((verify_batch (audited ready_host) 3 mem_config one_request (tt, true)).0
        ≡ (verify_batch ready_host 3 mem_config one_request tt).0)
verify_batch-audited_example = verify_batch-audited ready_host 3 mem_config one_request tt (record {
  message_bytes = omega arith;
  job_bytes = omega arith;
  small_limit = omega arith;
  small_cycles = omega arith;
})

-- The words in the order of their writes.
abbrev logged : ℕ → ℕ → M (List (ℕ × ℕ)) (Unit {0})
logged offset value log = (ok tt, log ++ ((offset, value) ∷ []))

five_bytes :
    write_bytes_as_u32_words logged (1 ∷ 2 ∷ 3 ∷ 4 ∷ 5 ∷ []) 12 []
    ≡ (ok tt, (0, 0x04030201) ∷ (4, 5) ∷ (8, 0) ∷ [])
unfolding write_bytes_as_u32_words full_word last_word full_words tail_word zero_words
five_bytes = refl

write_bytes_as_u32_words-put_words_example :
    write_bytes_as_u32_words logged (1 ∷ 2 ∷ 3 ∷ 4 ∷ 5 ∷ []) 12 []
    ≡ put_words logged 0 (words_of 3 (padded (1 ∷ 2 ∷ 3 ∷ 4 ∷ 5 ∷ []) 12)) []
write_bytes_as_u32_words-put_words_example =
    write_bytes_as_u32_words-put_words logged (1 ∷ 2 ∷ 3 ∷ 4 ∷ 5 ∷ []) 12 [] (omega arith)
      (omega arith)
