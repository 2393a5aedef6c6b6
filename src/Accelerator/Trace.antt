-- ===== src/Accelerator/Trace.antt =====
-- A host that writes down the device writes of accelerator.rs: it does what another host does, and
-- keeps the list of the writes in their order, each with the file it goes through and its address in
-- that file. Beside it, the writes that a batch is to make, written out without any step.
pub mod Rules
pub mod Regions
pub mod Steps
pub mod Batch
pub mod Memory
pub mod Watching
pub mod Passed
pub mod Places
pub mod Registers
pub mod Image
mod Example
use kv260_sigverify.Prelude.{
  ℕ, ◌+◌, ◌*◌, ◌/◌, ◌%◌, ◌^◌, List, [], ◌∷◌, ◌++◌, String, Outcome, ok, err, panic, bit_or, length,
}
use kv260_sigverify.ServiceError.{ServiceError}
use kv260_sigverify.Accelerator.Types.{
  AcceleratorConfig, RegionSpec, HardwareBatchRequest, HardwareLayout, WaitMode, auto, irq, poll,
  register_bits, reg_control, reg_message_len, reg_job_count, reg_verify_cfg,
  reg_job_timeout_cycles, reg_irq_ctrl_status, control_cmd_reset_then_start,
  irq_ctrl_enable_and_ack,
}
use kv260_sigverify.Accelerator.Host.{Host}
use kv260_sigverify.Accelerator.Watch.{watch, labelled}
use kv260_sigverify.Accelerator.Words.Fill.{words_of, padded}
use kv260_sigverify.Accelerator.Layout.{wait_mode_for_layout}
use kv260_sigverify.Accelerator.Batch.{jobs_bytes, verify_batch}

pub record Write : Type 0 where
  pub path : String
  pub address : ℕ
  pub value : ℕ

-- A file is labelled with its path, a mapping with the path and the place in the file where it starts.
abbrev pub traced : Host → Host
traced h = record {
  World = h.World × List Write;
  File = h.File × String;
  Mapping = h.Mapping × (String × ℕ);
  page_size = watch h.page_size;
  open_file = λ flag path w. let r = h.open_file flag path w.0 in (labelled path r.0, (r.1, w.1));
  map_file = λ file offset size w.
      let r = h.map_file file.0 offset size w.0 in (labelled (file.1, offset) r.0, (r.1, w.1));
  read_volatile = λ m start. watch (h.read_volatile m.0 start);
  write_volatile = λ m start value w. (
    h.write_volatile m.0 start value w.0,
    w.1 ++ (record { path = m.1.0; address = m.1.1 + start; value = value } ∷ []),
  );
  now = watch h.now;
  sleep = λ time w. (h.sleep time w.0, w.1);
  exists = λ path. watch (h.exists path);
  read_dir = λ path. watch (h.read_dir path);
  read_to_string = λ path. watch (h.read_to_string path);
  write_all = λ file bytes. watch (h.write_all file.0 bytes);
  poll_in = λ file time. watch (h.poll_in file.0 time);
  read_exact = λ file count. watch (h.read_exact file.0 count);
  debug_text = h.debug_text;
  seconds_text = h.seconds_text;
  latest = h.latest;
}

-- A write at an offset of a region.
abbrev pub write_at : RegionSpec → ℕ → ℕ → Write
write_at spec offset value = record {
  path = spec.path;
  address = spec.offset + offset;
  value = value;
}

-- Words at consecutive offsets of a region.
abbrev pub writes_from : RegionSpec → ℕ → List ℕ → List Write
writes_from spec offset [] = []
writes_from spec offset (value ∷ values) =
    write_at spec offset value ∷ writes_from spec (offset + 4) values

-- Bytes, filled up with zeros to the size of the region, as little-endian words.
abbrev pub region_writes : RegionSpec → List ℕ → List Write
region_writes spec bytes = writes_from spec 0 (words_of (spec.size / 4) (padded bytes spec.size))

abbrev pub parameter_writes : RegionSpec → HardwareBatchRequest → List Write
parameter_writes control request =
    write_at control reg_message_len (length request.message % 2 ^ 32)
    ∷ write_at control reg_job_count (length request.jobs % 2 ^ 32)
    ∷ write_at control reg_verify_cfg
        (bit_or (request.dispatch_limit * 2 ^ 8 % 2 ^ 32) (register_bits request.verify_mode))
    ∷ write_at control reg_job_timeout_cycles request.job_timeout_cycles
    ∷ []

-- The start command, between two acknowledgements of the interrupt if there is one.
abbrev pub start_writes : RegionSpec → WaitMode → List Write
start_writes control irq =
    write_at control reg_irq_ctrl_status irq_ctrl_enable_and_ack
    ∷ write_at control reg_control control_cmd_reset_then_start
    ∷ write_at control reg_irq_ctrl_status irq_ctrl_enable_and_ack
    ∷ []
start_writes control poll = write_at control reg_control control_cmd_reset_then_start ∷ []
start_writes control auto = write_at control reg_control control_cmd_reset_then_start ∷ []

abbrev pub submit_writes : HardwareLayout → HardwareBatchRequest → List Write
submit_writes layout request =
    region_writes layout.message request.message
    ++ (region_writes layout.job (jobs_bytes request.jobs)
        ++ parameter_writes layout.control request)

abbrev pub batch_writes : HardwareLayout → WaitMode → HardwareBatchRequest → List Write
batch_writes layout mode request = submit_writes layout request ++ start_writes layout.control mode

abbrev pub mode_writes :
    HardwareLayout → HardwareBatchRequest → Outcome ServiceError WaitMode → List Write
mode_writes layout request (ok mode) = batch_writes layout mode request
mode_writes layout request (err e) = []
mode_writes layout request panic = []

-- The writes of a batch, by the layout that the search gave: none without a layout or a way to wait.
abbrev pub layout_writes :
    WaitMode → HardwareBatchRequest → Outcome ServiceError HardwareLayout → List Write
layout_writes wait_mode request (ok layout) =
    mode_writes layout request (wait_mode_for_layout wait_mode layout.control.path)
layout_writes wait_mode request (err e) = []
layout_writes wait_mode request panic = []

-- The list of the writes after a batch.
abbrev pub written :
    (h : Host) → ℕ → AcceleratorConfig → HardwareBatchRequest → h.World → List Write → List Write
written h fuel config request w log = (verify_batch (traced h) fuel config request (w, log)).1.1
