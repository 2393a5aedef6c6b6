-- ===== src/Accelerator/SingleFlight/Safety.antt =====
-- What holds of the single-flight accelerator of accelerator.rs in every reachable state.
use kv260_sigverify.Prelude.{
  ℕ, ◌≡◌, sym, ap, ◌∙◌, ◌↔◌, List, [], ◌∷◌, Bool, true, false, Outcome, ◌==◌, ==_iff, Bool-cases,
  inl, inr,
}
use kv260_sigverify.ServiceError.{ServiceError}
use kv260_sigverify.Accelerator.Types.{HardwareBatchRequest, HardwareBatchResult}
use kv260_sigverify.Accelerator.SingleFlight.{
  Pc, idle, entered, running, leaving, returned, update, critical, System, Step, call, exchange,
  begin_run, end_run, drop_guard, finish, Reach, start, later, Accelerator, try_acquire,
  after_exchange,
}
use kv260_sigverify.Accelerator.SingleFlight.Lock.{
  IsLocked, idle-IsLocked, Step-IsLocked, update_same, update_other,
}

pub Reach-IsLocked :
    {W : Type 0} {inner : Accelerator W} {w : W} {s : System W}
    → Reach inner w s
    → IsLocked s.busy s.pc
Reach-IsLocked start = idle-IsLocked
Reach-IsLocked (later r step) = Step-IsLocked step (Reach-IsLocked r)

-- In every state that calls, compare-exchanges, beginnings and ends of the inner accelerator's calls
-- and drops of the guard by any threads in any order reach, at most one thread is between its
-- compare-exchange and its drop.
pub mutual_exclusion :
    {W : Type 0} {inner : Accelerator W} {w : W} {s : System W}
    → Reach inner w s
    → (i j : ℕ) → critical (s.pc i) ≡ true
    → critical (s.pc j) ≡ true
    → i ≡ j
mutual_exclusion r = (Reach-IsLocked r).unique

-- In every reachable state the busy flag is set exactly when some thread is between its
-- compare-exchange and its drop: no outcome of the inner call, a panic included, leaves it set.
pub busy_iff :
    {W : Type 0} {inner : Accelerator W} {w : W} {s : System W}
    → Reach inner w s
    → (s.busy ≡ true) ↔ ((i : ℕ) × (critical (s.pc i) ≡ true))
busy_iff r = let inv = Reach-IsLocked r in (inv.covered, λ owner. inv.held owner.0 owner.1)

-- The world after the requests of a history, run one after the other, the last one first in it.
abbrev pub replay : {W : Type 0} → Accelerator W → W → List HardwareBatchRequest → W
replay inner w [] = w
replay inner w (request ∷ history) = (inner.verify_batch request (replay inner w history)).1

-- A thread in the inner call has found the world as it still is.
abbrev pub IsCurrent : {W : Type 0} → W → (ℕ → Pc W) → Type 0
IsCurrent world pc =
    (i : ℕ) (request : HardwareBatchRequest) (seen : _) → pc i ≡ running request seen → seen ≡ world

-- A thread that moves to a place outside the inner call, or into it with the world as it is.
moved-IsCurrent :
    {W : Type 0} {world : W} {pc : ℕ → Pc W} (i : ℕ) (p : Pc W)
    → ((request : HardwareBatchRequest) (seen : W) → p ≡ running request seen → seen ≡ world)
    → IsCurrent world pc
    → IsCurrent world (update pc i p)
moved-IsCurrent {W} {world} {pc} i p here others j request seen at = elim (Bool-cases (i == j)) [
  | inl same ↦ here request seen (sym (update_same pc i j p ((==_iff i j).0 same)) ∙ at)
  | inr other ↦ others j request seen (sym (update_other pc i j p other) ∙ at)
]

exchange_not_running :
    {W A : Type 0} (b : Bool) (asked request : HardwareBatchRequest) (seen : W)
    → after_exchange asked (try_acquire b).0 ≡ running request seen
    → A
unfolding try_acquire
exchange_not_running true asked request seen e = cc
exchange_not_running false asked request seen e = cc

-- The thread in the inner call is the only one there, so its end overwrites nobody's effects.
end_run-IsCurrent :
    {W : Type 0} {b : Bool} {pc : ℕ → Pc W} (world2 : W) (i : ℕ) (asked : HardwareBatchRequest)
    (seen2 : W) (r : Outcome ServiceError HardwareBatchResult)
    → IsLocked b pc
    → pc i ≡ running asked seen2
    → IsCurrent world2 (update pc i (leaving asked r))
end_run-IsCurrent {W} {b} {pc} world2 i asked seen2 r locked at j request seen now =
    elim (Bool-cases (i == j)) [
      | inl same ↦
          let e : leaving asked r ≡ running request seen =
            sym (update_same pc i j _ ((==_iff i j).0 same)) ∙ now in
          cc
      | inr other ↦
          let e : pc j ≡ running request seen = sym (update_other pc i j _ other) ∙ now in
          let both : i ≡ j = locked.unique i j (ap critical at) (ap critical e) in
          let yes : (i == j) ≡ true = (==_iff i j).1 both in cc
    ]

Step-IsCurrent :
    {W : Type 0} {inner : Accelerator W} {s t : System W}
    → Step inner s t
    → IsLocked s.busy s.pc
    → IsCurrent s.world s.pc
    → IsCurrent t.world t.pc
Step-IsCurrent (call i request at e) locked h =
    rw e (moved-IsCurrent i (entered request) (λ r w x. cc) h)
Step-IsCurrent {s} (exchange i request at e) locked h =
    rw e (moved-IsCurrent i _ (λ r w x. exchange_not_running s.busy request r w x) h)
Step-IsCurrent {s} (begin_run i request at e) locked h =
    rw e (moved-IsCurrent i (running request s.world) (λ r w x. cc) h)
Step-IsCurrent (end_run i request seen at e) locked h =
    rw e (end_run-IsCurrent _ i request seen _ locked at)
Step-IsCurrent (drop_guard i request r at e) locked h =
    rw e (moved-IsCurrent i (returned r) (λ r2 w x. cc) h)
Step-IsCurrent (finish i r at e) locked h = rw e (moved-IsCurrent i idle (λ r2 w x. cc) h)

pub Reach-IsCurrent :
    {W : Type 0} {inner : Accelerator W} {w : W} {s : System W}
    → Reach inner w s
    → IsCurrent s.world s.pc
Reach-IsCurrent start = λ i request seen at. cc
Reach-IsCurrent (later r step) = Step-IsCurrent step (Reach-IsLocked r) (Reach-IsCurrent r)
