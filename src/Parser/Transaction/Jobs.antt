-- ===== src/Parser/Transaction/Jobs.antt =====
-- The jobs of a transaction: each signature with the account key at its place.
use kv260_sigverify.Prelude.{
  ℕ, suc, ◌+◌, ◌≤◌, ◌<◌, ◌≡◌, refl, sym, ap, List, [], ◌∷◌, ok, panic, arith, length, get_elem?,
  get_elem?_of_lt, drop, drop_of_get_elem?, Option-cases, none, some, inl, inr, lt_of_get_elem?,
}
use native.Mathlib.Decide.{dec_lt}
use kv260_sigverify.Parser.Types.{VerificationJob, ParseError}
use kv260_sigverify.Parser.Reader.{index}
use kv260_sigverify.Parser.Transaction.{build_jobs}

-- Keys and signatures side by side, numbered from `i` on.
abbrev pub pair_up : ℕ → List (List ℕ) → List (List ℕ) → List VerificationJob
pair_up i (key ∷ keys) (signature ∷ signatures) =
    record { index = i; pubkey = key; signature = signature } ∷ pair_up (i + 1) keys signatures
pair_up i _ _ = []

pair_up-nil : (i : ℕ) (keys : List (List ℕ)) → pair_up i keys [] ≡ []
pair_up-nil i [] = refl
pair_up-nil i (key ∷ keys) = refl

index_some :
    (keys : List (List ℕ)) (i : ℕ) {key : List ℕ}
    → get_elem? keys i ≡ some key
    → index {E = ParseError} keys i ≡ ok key
index_some keys i e = rw (e, index)

index_none :
    (keys : List (List ℕ)) (i : ℕ) → get_elem? keys i ≡ none → index {E = ParseError} keys i ≡ panic
index_none keys i e = rw (e, index)

get_elem?_past : (keys : List (List ℕ)) (i : ℕ) → length keys ≤ i → get_elem? keys i ≡ none
get_elem?_past keys i h = elim (Option-cases (get_elem? keys i)) [
  | inl missing ↦ missing
  | inr (key, found) ↦ absurd (omega (arith, lt_of_get_elem? keys i found))
]

-- With a key for each signature, the jobs are the pairs.
pub build_jobs-pair_up :
    (keys : List (List ℕ)) (i : ℕ) (signatures : List (List ℕ))
    → i + length signatures ≤ length keys
    → build_jobs keys i signatures ≡ ok (pair_up i (drop i keys) signatures)
unfolding build_jobs
build_jobs-pair_up keys i [] h = ap ok (sym (pair_up-nil i (drop i keys)))
build_jobs-pair_up keys i (signature ∷ rest) h =
    let (key, found) = get_elem?_of_lt keys i (omega arith) in
    rw (
      index_some keys i found,
      build_jobs-pair_up keys (i + 1) rest (omega arith),
      drop_of_get_elem? i keys found,
    )

-- With too few keys the indexing panics.
pub build_jobs_panic :
    (keys : List (List ℕ)) (i : ℕ) (signatures : List (List ℕ))
    → i ≤ length keys
    → length keys < i + length signatures
    → build_jobs keys i signatures ≡ panic
unfolding build_jobs
build_jobs_panic keys i [] h few = absurd (omega arith)
build_jobs_panic keys i (signature ∷ rest) h few = elim (dec_lt i (length keys)) [
  | yes inside ↦
      let (key, found) = get_elem?_of_lt keys i inside in
      rw (index_some keys i found, build_jobs_panic keys (i + 1) rest (omega arith) (omega arith))
  | no outside ↦ rw (index_none keys i (get_elem?_past keys i (omega arith)))
]

pub length-pair_up :
    (i : ℕ) (keys signatures : List (List ℕ))
    → length signatures ≤ length keys
    → length (pair_up i keys signatures) ≡ length signatures
length-pair_up i [] [] h = refl
length-pair_up i [] (signature ∷ rest) h = absurd (omega arith)
length-pair_up i (key ∷ keys) [] h = refl
length-pair_up i (key ∷ keys) (signature ∷ rest) h =
    ap suc (length-pair_up (i + 1) keys rest (omega arith))
