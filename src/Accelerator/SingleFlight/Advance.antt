-- ===== src/Accelerator/SingleFlight/Advance.antt =====
-- The next step of a thread in the single-flight accelerator of accelerator.rs, as a function.
use kv260_sigverify.Prelude.{ℕ, ◌≡◌, refl, ◌∷◌, false, ◌⊎◌, inl, inr}
use kv260_sigverify.Accelerator.SingleFlight.{
  Accelerator, try_acquire, Pc, idle, entered, inside, running, leaving, returned, update,
  after_exchange, System, Step, exchange, begin_run, end_run, drop_guard, finish,
}

module _ {W : Type 0} (inner : Accelerator W) where
  -- From where the thread stands. An idle thread stays idle: its calls are steps of their own.
  advance_from : ℕ → System W → Pc W → System W
  advance_from i s idle = s
  advance_from i s (entered request) = record s {
    busy = (try_acquire s.busy).1;
    pc = update s.pc i (after_exchange request (try_acquire s.busy).0);
  }
  advance_from i s (inside request) = record s { pc = update s.pc i (running request s.world) }
  advance_from i s (running request seen) = record s {
    world = (inner.verify_batch request seen).1;
    pc = update s.pc i (leaving request (inner.verify_batch request seen).0);
    history = request ∷ s.history;
  }
  advance_from i s (leaving request r) = record s { busy = false; pc = update s.pc i (returned r) }
  advance_from i s (returned r) = record s { pc = update s.pc i idle }

  unfoldable pub advance : ℕ → System W → System W
  unfolding advance_from
  advance i s = advance_from i s (s.pc i)

  -- Each of them but that of an idle thread is a step.
  pub advance-Step : (i : ℕ) (s : System W) → (s.pc i ≡ idle) ⊎ Step inner s (advance i s)
  unfolding advance advance_from
  advance-Step i s = go (s.pc i) refl
    where
      go : (p : Pc W) → s.pc i ≡ p → (p ≡ idle) ⊎ Step inner s (advance_from i s p)
      go idle e = inl refl
      go (entered request) e = inr (exchange i request e refl)
      go (inside request) e = inr (begin_run i request e refl)
      go (running request seen) e = inr (end_run i request seen e refl)
      go (leaving request r) e = inr (drop_guard i request r e refl)
      go (returned r) e = inr (finish i r e refl)
