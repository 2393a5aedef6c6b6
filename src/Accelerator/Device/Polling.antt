-- ===== src/Accelerator/Device/Polling.antt =====
-- The loop of `poll_until_complete` of accelerator.rs ends, given a clock that does not stand still.
use kv260_sigverify.Prelude.{
  ℕ, zero, suc, ◌+◌, ◌*◌, ◌≤◌, ◌≡◌, ◌≢◌, refl, String, true, false, ◌||◌, ◌⊎◌, inl, inr, Outcome,
  ok, err, panic, Outcome-cases, Bool-cases, leb, arith,
}
use kv260_sigverify.ServiceError.{ServiceError}
use kv260_sigverify.Accelerator.Types.{reg_status, default_poll_interval}
use kv260_sigverify.Accelerator.Host.{Host, continue_with}
use kv260_sigverify.Accelerator.Mmio.{MappedRegion, read_u32, checked_word_start}
use kv260_sigverify.Accelerator.Device.{decode_status, poll_until_complete}

-- `Instant::now` reads a clock, in milliseconds, that no call turns back and that a sleep moves on by
-- its length at least.
pub record Clock (h : Host) : Type 0 where
  pub clock : h.World → ℕ
  pub now_reads : (w : h.World) → clock w ≤ (h.now w).0
  pub now_after : (w : h.World) → clock w ≤ clock (h.now w).1
  pub read_after : (m : h.Mapping) (a : ℕ) (w : h.World) → clock w ≤ clock (h.read_volatile m a w).1
  pub sleep_after : (d : ℕ) (w : h.World) → clock w + d ≤ clock (h.sleep d w)

-- A status word in which the device is done or reports an error.
abbrev pub IsTerminal : ℕ → Type 0
IsTerminal word = ((decode_status word).is_done || (decode_status word).is_error) ≡ true

-- A terminal status word or an error, and no panic.
abbrev pub Ends : Outcome ServiceError ℕ → Type 0
Ends r = ((word : ℕ) × (r ≡ ok word) × IsTerminal word) ⊎ ((e : ServiceError) × (r ≡ err e))

checked-ne-panic :
    (size delta offset : ℕ) (operation : String)
    → checked_word_start size delta offset operation ≢ panic
unfolding checked_word_start
checked-ne-panic size delta offset operation h = ground arith

module _ (h : Host) (c : Clock h) where
  read-cases :
      (control : MappedRegion h.Mapping) (w : h.World)
      → ((e : ServiceError) × (read_u32 h control reg_status w ≡ (err e, w)))
        ⊎ ((word : ℕ) × (w2 : h.World) × (read_u32 h control reg_status w ≡ (ok word, w2))
            × (c.clock w ≤ c.clock w2))
  unfolding read_u32
  read-cases control w =
      elim (Outcome-cases (checked_word_start control.size control.delta reg_status "read")) [
        | inl (start, e) ↦ inr (
          (h.read_volatile control.mapping start w).0,
          (h.read_volatile control.mapping start w).1,
          rw e refl,
          c.read_after control.mapping start w,
        )
        | inr (inl (x, e)) ↦ inl (x, rw e refl)
        | inr (inr e) ↦ absurd (checked-ne-panic _ _ _ _ e)
      ]

  -- One round ends, or goes on ten milliseconds later with the deadline still ahead.
  one_round :
      (rounds : ℕ) (control : MappedRegion h.Mapping) (deadline : ℕ) (w : h.World)
      → ((w2 : h.World)
          → c.clock w ≤ c.clock w2
          → leb deadline (h.now w2).0 ≡ false
          → Ends
              (poll_until_complete h rounds control deadline
                (h.sleep default_poll_interval (h.now w2).1)).0)
      → Ends (poll_until_complete h (suc rounds) control deadline w).0
  unfolding poll_until_complete
  one_round rounds control deadline w next = elim (read-cases control w) [
    | inl (x, e) ↦ rw e (inr (x, refl))
    | inr (word, w2, e, after) ↦
        elim (Bool-cases ((decode_status word).is_done || (decode_status word).is_error)) [
          | inl done ↦ rw (e, continue_with, done) (inl (word, refl, done))
          | inr busy ↦ elim (Bool-cases (leb deadline (h.now w2).0)) [
            | inl late ↦ rw (e, continue_with, busy, late) (inr (_, refl))
            | inr early ↦ rw (e, continue_with, busy, early) (next w2 after early)
          ]
        ]
  ]

  -- With a bound of `rounds + 1` on its rounds, where the deadline is at most ten milliseconds for
  -- each of `rounds` away, `poll_until_complete` gives a terminal status word or an error: the bound
  -- does not run out.
  pub poll_until_complete-Ends :
      (rounds : ℕ) (control : MappedRegion h.Mapping) (deadline : ℕ) (w : h.World)
      → deadline ≤ c.clock w + default_poll_interval * rounds
      → Ends (poll_until_complete h (suc rounds) control deadline w).0
  poll_until_complete-Ends zero control deadline w near =
      one_round zero control deadline w (λ w2 after early. absurd (ground (arith, c.now_reads w2)))
  poll_until_complete-Ends (suc rounds) control deadline w near =
      one_round (suc rounds) control deadline w (λ w2 after early.
        poll_until_complete-Ends rounds control deadline _
          (omega (arith, c.now_after w2, c.sleep_after default_poll_interval (h.now w2).1)))
