-- ===== src/Accelerator/SingleFlight/Lock.antt =====
-- The busy flag of accelerator.rs against the threads: it is set while a thread is between the
-- compare-exchange and the guard's `drop`, and one thread at most is there.
use kv260_sigverify.Prelude.{
  ℕ, ◌≡◌, refl, sym, ap, ◌∙◌, Bool, true, false, err, ◌==◌, Bool-cases, ==_iff, inl, inr, arith,
}
use kv260_sigverify.Accelerator.Types.{HardwareBatchRequest}
use kv260_sigverify.Accelerator.SingleFlight.{
  Pc, idle, entered, inside, returned, update, critical, System, Step, call, exchange, begin_run,
  end_run, drop_guard, finish, Accelerator, try_acquire, after_exchange, busy_error,
}

pub record IsLocked {W : Type 0} (busy : Bool) (pc : ℕ → Pc W) : Type 0 where
  pub held : (i : ℕ) → critical (pc i) ≡ true → busy ≡ true
  pub unique : (i j : ℕ) → critical (pc i) ≡ true → critical (pc j) ≡ true → i ≡ j
  pub covered : busy ≡ true → (i : ℕ) × (critical (pc i) ≡ true)

pub idle-IsLocked : {W : Type 0} → IsLocked {W = W} false (λ _. idle)
idle-IsLocked = record { held = λ i c. cc; unique = λ i j c d. cc; covered = λ b. cc }

pub update_same : {W : Type 0} (pc : ℕ → Pc W) (i j : ℕ) (p : Pc W) → i ≡ j → update pc i p j ≡ p
update_same pc i j p e = ground arith

pub update_other :
    {W : Type 0} (pc : ℕ → Pc W) (i j : ℕ) (p : Pc W) → (i == j) ≡ false → update pc i p j ≡ pc j
update_other pc i j p e = ground arith

-- A thread moves and stays on its side of the guard.
pub quiet-IsLocked :
    {W : Type 0} {b : Bool} {pc : ℕ → Pc W} (i : ℕ) (p : Pc W)
    → IsLocked b pc
    → critical p ≡ critical (pc i)
    → IsLocked b (update pc i p)
quiet-IsLocked {b} {pc} i p inv e = record {
  held = λ j c. inv.held j (same j ∙ c);
  unique = λ j k c d. inv.unique j k (same j ∙ c) (same k ∙ d);
  covered = λ busy. let (j, c) = inv.covered busy in (j, sym (same j) ∙ c);
}
  where
    same : (j : ℕ) → critical (pc j) ≡ critical (update pc i p j)
    same j = grind arith

-- A thread takes the free flag.
pub acquire-IsLocked :
    {W : Type 0} {pc : ℕ → Pc W} (i : ℕ) (p : Pc W)
    → IsLocked false pc
    → critical p ≡ true
    → IsLocked true (update pc i p)
acquire-IsLocked {pc} i p inv e = record {
  held = λ j c. refl;
  unique = λ j k c d. only j c ∙ sym (only k d);
  covered = λ busy. (i, grind arith);
}
  where
    only : (j : ℕ) → critical (update pc i p j) ≡ true → j ≡ i
    only j c = grind (arith, inv.held j)

-- A thread that holds the flag gives it back.
pub release-IsLocked :
    {W : Type 0} {b : Bool} {pc : ℕ → Pc W} (i : ℕ) (p : Pc W)
    → IsLocked b pc
    → critical (pc i) ≡ true
    → critical p ≡ false
    → IsLocked false (update pc i p)
release-IsLocked {b} {pc} i p inv ci e = record {
  held = λ j c. let n = none_left j in cc;
  unique = λ j k c d. let n = none_left j in cc;
  covered = λ busy. cc;
}
  where
    none_left : (j : ℕ) → critical (update pc i p j) ≡ false
    none_left j = elim (Bool-cases (i == j)) [
      | inl same ↦ ap critical (update_same pc i j p ((==_iff i j).0 same)) ∙ e
      | inr other ↦ elim (Bool-cases (critical (pc j))) [
        | inl c ↦ ap critical (update_same pc i j p (inv.unique i j ci c)) ∙ e
        | inr c ↦ ap critical (update_other pc i j p other) ∙ c
      ]
    ]

exchange-IsLocked :
    {W : Type 0} (b : Bool) (pc : ℕ → Pc W) (i : ℕ) (request : HardwareBatchRequest)
    → pc i ≡ entered request
    → IsLocked b pc
    → IsLocked (try_acquire b).1 (update pc i (after_exchange request (try_acquire b).0))
unfolding try_acquire
exchange-IsLocked true pc i request at inv = quiet-IsLocked i (returned (err busy_error)) inv cc
exchange-IsLocked false pc i request at inv = acquire-IsLocked i (inside request) inv refl

pub Step-IsLocked :
    {W : Type 0} {inner : Accelerator W} {s t : System W}
    → Step inner s t
    → IsLocked s.busy s.pc
    → IsLocked t.busy t.pc
Step-IsLocked {s} (call i request at e) inv = rw e (quiet-IsLocked i (entered request) inv cc)
Step-IsLocked {s} (exchange i request at e) inv =
    rw e (exchange-IsLocked s.busy s.pc i request at inv)
Step-IsLocked {s} (begin_run i request at e) inv = rw e (quiet-IsLocked i _ inv cc)
Step-IsLocked {s} (end_run i request seen at e) inv = rw e (quiet-IsLocked i _ inv cc)
Step-IsLocked {s} (drop_guard i request r at e) inv =
    rw e (release-IsLocked i (returned r) inv (ap critical at) refl)
Step-IsLocked {s} (finish i r at e) inv = rw e (quiet-IsLocked i idle inv cc)
