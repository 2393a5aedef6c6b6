-- ===== src/Accelerator/Trace/Example.antt =====
-- Traced batches of accelerator.rs.
use kv260_sigverify.Prelude.{◌≡◌, ◌+◌, ap, refl, ok, [], inr, inl, some, map, arith}
use kv260_sigverify.Accelerator.Types.{
  HardwareLayout, control_base, message_base, job_base, control_size, message_size, job_size,
  reg_message_len, reg_job_count, poll,
}
use kv260_sigverify.Accelerator.Words.Fill.{padded}
use kv260_sigverify.Accelerator.Layout.{resolve_region, resolve_layout, path_uses_uio}
use kv260_sigverify.StdText.{file_name, path_parts, last_part}
use kv260_sigverify.Accelerator.Batch.{jobs_bytes, verify_batch}
use kv260_sigverify.Accelerator.Examples.{
  ready_host, mem_config, one_request, one_result, one_batch,
}
use kv260_sigverify.Accelerator.Keeps.{Any}
use kv260_sigverify.Accelerator.Trace.{written, layout_writes}
use kv260_sigverify.Accelerator.Trace.Rules.{Adds}
use kv260_sigverify.Accelerator.Trace.Batch.{verify_batch-Adds}
use kv260_sigverify.Accelerator.Trace.Memory.{memory}
use kv260_sigverify.Accelerator.Trace.Registers.{word_bytes}
use kv260_sigverify.Accelerator.Trace.Image.{verify_batch-memory}

verify_batch-Adds_example :
    Adds Any []
      (layout_writes poll one_request (resolve_layout ready_host mem_config tt).0)
      (verify_batch ready_host 3 mem_config one_request tt).0
      (written ready_host 3 mem_config one_request tt [])
verify_batch-Adds_example = verify_batch-Adds ready_host 3 mem_config one_request tt []

abbrev mem_layout : HardwareLayout
mem_layout = record {
  control = record { path = "/dev/mem"; offset = control_base; size = control_size };
  message = record { path = "/dev/mem"; offset = message_base; size = message_size };
  job = record { path = "/dev/mem"; offset = job_base; size = job_size };
}

mem_layout_found : (resolve_layout ready_host mem_config tt).0 ≡ ok mem_layout
unfolding resolve_layout resolve_region path_uses_uio file_name path_parts last_part
mem_layout_found = refl

verify_batch-memory_example :
    (memory (written ready_host 3 mem_config one_request tt []) "/dev/mem" message_base message_size
      ≡ map some (padded one_request.message message_size))
    × ((memory (written ready_host 3 mem_config one_request tt []) "/dev/mem" job_base job_size
          ≡ map some (padded (jobs_bytes one_request.jobs) job_size))
        × ((memory
                (written ready_host 3 mem_config one_request tt [])
                "/dev/mem"
                (control_base + reg_message_len)
                4
              ≡ map some (word_bytes 3))
            × (memory
                  (written ready_host 3 mem_config one_request tt [])
                  "/dev/mem"
                  (control_base + reg_job_count)
                  4
                ≡ map some (word_bytes 1))))
verify_batch-memory_example =
    verify_batch-memory ready_host 3 mem_config one_request tt [] mem_layout one_result
      (record {
        message_bytes = omega arith;
        job_bytes = omega arith;
        small_limit = omega arith;
        small_cycles = omega arith;
      })
      mem_layout_found
      (record {
        message_job = inr (inl (omega arith));
        message_control = inr (inr (omega arith));
        job_control = inr (inr (omega arith));
      })
      (ap (λ r. r.0) one_batch)
