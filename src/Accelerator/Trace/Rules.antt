-- ===== src/Accelerator/Trace/Rules.antt =====
-- Steps of accelerator.rs over a world that has a list of writes beside it, and which writes they add.
use kv260_sigverify.Prelude.{
  ◌≡◌, refl, sym, ap, subst, ◌∙◌, List, [], ◌++◌, append_assoc, append-nil, Outcome, ok, err, panic,
}
use kv260_sigverify.ServiceError.{ServiceError}
use kv260_sigverify.Accelerator.Host.{M, pure, fail, lift, continue_with, ◌>>=◌}
use kv260_sigverify.Accelerator.Post.{Post}
use kv260_sigverify.Accelerator.Keeps.{Any, Keeps}

-- Some of the elements, from the first one on, have been added.
pub record IsPart {X : Type 0} (before all after : List X) : Type 0 where
  pub done : List X
  pub rest : List X
  pub all_eq : all ≡ done ++ rest
  pub after_eq : after ≡ before ++ done

-- All are added by a step that gives a value, the first so many by one that does not.
abbrev pub Adds :
    {X A : Type 0} → (A → Type 0) → List X → List X → Outcome ServiceError A → List X → Type 0
Adds Q before all (ok a) after = (after ≡ before ++ all) × Q a
Adds Q before all (err e) after = IsPart before all after
Adds Q before all panic after = IsPart before all after

pub record Writes {W X A : Type 0} (Q : A → Type 0) (all : List X) (m : M (W × List X) A)
    : Type 0 where
  pub writes : (w : W × List X) → Adds Q w.1 all (m w).0 (m w).1.1

module _ {X : Type 0} where
  pub none-IsPart : (before all : List X) → IsPart before all before
  none-IsPart before all = record {
    done = [];
    rest = all;
    all_eq = refl;
    after_eq = sym (append-nil before);
  }

  IsPart-append :
      (before xs ys after : List X) → IsPart before xs after → IsPart before (xs ++ ys) after
  IsPart-append before xs ys after p = record {
    done = p.done;
    rest = p.rest ++ ys;
    all_eq = ap (λ zs. zs ++ ys) p.all_eq ∙ append_assoc p.done p.rest ys;
    after_eq = p.after_eq;
  }

  IsPart-behind :
      (before xs ys middle after : List X)
      → middle ≡ before ++ xs
      → IsPart middle ys after
      → IsPart before (xs ++ ys) after
  IsPart-behind before xs ys middle after e p = record {
    done = xs ++ p.done;
    rest = p.rest;
    all_eq = ap (λ zs. xs ++ zs) p.all_eq ∙ sym (append_assoc xs p.done p.rest);
    after_eq = p.after_eq ∙ (ap (λ zs. zs ++ p.done) e ∙ append_assoc before xs p.done);
  }

  Adds-behind :
      {B : Type 0} (S : B → Type 0) (before xs ys middle after : List X)
      (r : Outcome ServiceError B)
      → middle ≡ before ++ xs
      → Adds S middle ys r after
      → Adds S before (xs ++ ys) r after
  Adds-behind S before xs ys middle after (ok b) e (f, s) =
      (f ∙ (ap (λ zs. zs ++ ys) e ∙ append_assoc before xs ys), s)
  Adds-behind S before xs ys middle after (err x) e p = IsPart-behind before xs ys middle after e p
  Adds-behind S before xs ys middle after panic e p = IsPart-behind before xs ys middle after e p

pub Adds-eq-ok :
    {X A : Type 0} (Q : A → Type 0) (before all after : List X) (r : Outcome ServiceError A) (a : A)
    → Adds Q before all r after
    → r ≡ ok a
    → after ≡ before ++ all
Adds-eq-ok Q before all after (ok b) a adds e = adds.0
Adds-eq-ok Q before all after (err x) a adds e = cc
Adds-eq-ok Q before all after panic a adds e = cc

pub Adds-equal :
    {X A : Type 0} (Q : A → Type 0) (before all all2 after : List X) (r r2 : Outcome ServiceError A)
    → all ≡ all2
    → r ≡ r2
    → Adds Q before all r after
    → Adds Q before all2 r2 after
Adds-equal Q before all all2 after r r2 same_all same adds =
    subst (λ x. Adds Q before x r2 after) same_all
      (subst (λ x. Adds Q before all x after) same adds)

module _ {W X : Type 0} where
  pub pure-Writes :
      {A : Type 0} (Q : A → Type 0) (a : A) → Q a → Writes {W = W} {X = X} Q [] (pure a)
  pure-Writes Q a q = record { writes = λ w. (sym (append-nil w.1), q) }

  pub fail-Writes :
      {A : Type 0} (Q : A → Type 0) (all : List X) (x : ServiceError)
      → Writes {W = W} Q all (fail x)
  fail-Writes Q all x = record { writes = λ w. none-IsPart w.1 all }

  pub lift-Writes :
      {A : Type 0} (Q : A → Type 0) (r : Outcome ServiceError A)
      → ((a : A) → r ≡ ok a → Q a)
      → Writes {W = W} {X = X} Q [] (lift r)
  lift-Writes Q (ok a) q = pure-Writes Q a (q a refl)
  lift-Writes Q (err e) q = fail-Writes Q [] e
  lift-Writes Q panic q = record { writes = λ w. none-IsPart w.1 [] }

  pub bind-Writes :
      {A B : Type 0} (Q : A → Type 0) (S : B → Type 0) (xs ys : List X) (m : M (W × List X) A)
      (f : A → M (W × List X) B)
      → Writes Q xs m
      → ((a : A) → Q a → Writes S ys (f a))
      → Writes S (xs ++ ys) (m >>= f)
  bind-Writes {A} {B} Q S xs ys m f km kf = record { writes = λ w. go w.1 (m w) (km.writes w) }
    where
      go :
          (before : List X) (r : Outcome ServiceError A × (W × List X))
          → Adds Q before xs r.0 r.1.1
          → Adds S before (xs ++ ys) (continue_with f r).0 (continue_with f r).1.1
      go before (ok a, w2) (e, q) =
          Adds-behind S before xs ys w2.1 _ (f a w2).0 e ((kf a q).writes w2)
      go before (err x, w2) p = IsPart-append before xs ys w2.1 p
      go before (panic, w2) p = IsPart-append before xs ys w2.1 p

  pub eq-Writes :
      {A : Type 0} (Q : A → Type 0) (all : List X) (m n : M (W × List X) A)
      → ((w : W × List X) → m w ≡ n w)
      → Writes Q all n
      → Writes Q all m
  eq-Writes Q all m n same kn = record { writes = λ w. rw (same w) (kn.writes w) }

  -- A step that leaves every list of writes as it is.
  pub quiet-Writes :
      {A : Type 0} (Q : A → Type 0) (m : M (W × List X) A)
      → ((log : List X) → Keeps Unit (λ w. w.1 ≡ log) Any m)
      → Post Q m
      → Writes Q [] m
  quiet-Writes {A} Q m quiet post = record {
    writes = λ w. go w.1 (m w) ((quiet w.1).keeps w refl).0 (post w _);
  }
    where
      go :
          (before : List X) (r : Outcome ServiceError A × (W × List X))
          → r.1.1 ≡ before
          → ((a : A) → r ≡ (ok a, r.1) → Q a)
          → Adds Q before [] r.0 r.1.1
      go before (ok a, w2) e q = (e ∙ sym (append-nil before), q a refl)
      go before (err x, w2) e q = subst (λ l. IsPart before [] l) (sym e) (none-IsPart before [])
      go before (panic, w2) e q = subst (λ l. IsPart before [] l) (sym e) (none-IsPart before [])

  pub calm-Writes :
      {A : Type 0} (m : M (W × List X) A)
      → ((log : List X) → Keeps Unit (λ w. w.1 ≡ log) Any m)
      → Writes Any [] m
  calm-Writes m quiet = quiet-Writes Any m quiet (λ w w2 a e. tt)

  -- A bind whose second step writes nothing.
  pub last-Writes :
      {A B : Type 0} (Q : A → Type 0) (S : B → Type 0) (xs : List X) (m : M (W × List X) A)
      (f : A → M (W × List X) B)
      → Writes Q xs m
      → ((a : A) → Q a → Writes S [] (f a))
      → Writes S xs (m >>= f)
  last-Writes Q S xs m f km kf =
      subst (λ zs. Writes S zs (m >>= f)) (append-nil xs) (bind-Writes Q S xs [] m f km kf)
