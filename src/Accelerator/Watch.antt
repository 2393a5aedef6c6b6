-- ===== src/Accelerator/Watch.antt =====
-- What a host that watches another one of accelerator.rs does beside it: it carries a value of its own
-- along with the world, and labels what the other one gives.
use kv260_sigverify.Prelude.{◌≡◌, sym, ap, String, ◌⊎◌, inl, inr}

-- A call that leaves the watcher's value alone.
abbrev pub watch : {W A B : Type 0} → (W → A × W) → W × B → A × (W × B)
watch f w = let r = f w.0 in (r.0, (r.1, w.1))

-- What a call gives, with a label, if it gives something.
abbrev pub labelled : {A B : Type 0} → B → String ⊎ A → String ⊎ (A × B)
labelled label (inl error) = inl error
labelled label (inr a) = inr (a, label)

pub labelled_lem :
    {A B : Type 0} (label : B) (r : String ⊎ A) (x : A × B) → labelled label r ≡ inr x → x.1 ≡ label
labelled_lem label (inl error) x e = cc
labelled_lem label (inr a) x e = let same : (a, label) ≡ x = cc in ap (λ y. y.1) (sym same)
