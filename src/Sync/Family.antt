-- ===== src/Sync/Family.antt =====
-- Counting over the first `n` members of a family.
use garbage_collector.Prelude.{
  ℕ, zero, suc, ◌+◌, ◌≤◌, ◌<◌, ◌≡◌, true, false, Bool, ◌==◌, if◌then◌else◌, arith,
}
use native.Mathlib.Decide.{dec_lt}

unfoldable pub update {ℓ} : {A : Type ℓ} → (ℕ → A) → ℕ → A → ℕ → A
update f i a j = if j == i then a else f j

abbrev pub bit : Bool → ℕ
bit true = 1
bit false = 0

module _ {ℓ} {A : Type ℓ} (p : A → Bool) where
  -- How many of the first `n` members pass a test.
  unfoldable pub count : ℕ → (ℕ → A) → ℕ
  count zero f = 0
  count (suc n) f = count n f + bit (p (f n))

module _ {ℓ} {A : Type ℓ} where
  -- If each member that passes the first test passes the second, and as many pass both, then each that
  -- passes the second passes the first.
  pub count-le :
      (p q : A → Bool) (n : ℕ) (f g : ℕ → A)
      → ((i : ℕ) → i < n → bit (p (f i)) ≤ bit (q (g i)))
      → count p n f ≤ count q n g
  unfolding count
  count-le p q zero f g h = omega arith
  count-le p q (suc n) f g h =
      omega (arith, h n (omega arith), count-le p q n f g (λ i k. h i (omega arith)))

  pub count-eq :
      (p q : A → Bool) (n : ℕ) (f g : ℕ → A)
      → ((i : ℕ) → i < n → bit (p (f i)) ≤ bit (q (g i)))
      → count q n g ≤ count p n f
      → (i : ℕ) → i < n
      → bit (p (f i)) ≡ bit (q (g i))
  unfolding count
  count-eq p q zero f g h le i k = absurd (omega arith)
  count-eq p q (suc n) f g h le i k = elim (dec_lt i n) [
    | yes below ↦
        count-eq p q n f g (λ j m. h j (omega arith)) (omega (arith, h n (omega arith))) i below
    | no last ↦
        let here : i ≡ n = omega arith in
        rw here (omega (arith, h n (omega arith), count-le p q n f g (λ j m. h j (omega arith))))
  ]
