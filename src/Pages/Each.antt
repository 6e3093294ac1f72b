-- ===== src/Pages/Each.antt =====
-- Facts about every number of a short list, by computation.
use itertk.Base.{
  ℕ, ◌≡◌, sym, subst, Bool, true, false, List, [], ◌∷◌, ◌==◌, ◌||◌, ◌&&◌, arith, Bool-cases, inl,
  inr, ==→eq,
}

abbrev pub among : List ℕ → ℕ → Bool
among [] n = false
among (m ∷ ms) n = n == m || among ms n

abbrev pub all_same : (ℕ → ℕ) → List ℕ → Bool
all_same f [] = true
all_same f (m ∷ ms) = f m == m && all_same f ms

-- What holds of each number of a list, by a computation.
pub each_same :
    (f : ℕ → ℕ) (ms : List ℕ) (n : ℕ) → among ms n ≡ true → all_same f ms ≡ true → f n ≡ n
each_same f [] n h a = cc
each_same f (m ∷ ms) n h a = elim (Bool-cases (n == m)) [
  | inl same ↦ let e = ==→eq n m same in subst (λ k. f k ≡ k) (sym e) (ground arith)
  | inr other ↦ each_same f ms n (rw other at h) (ground arith)
]
