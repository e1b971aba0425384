-- ===== src/Memory/Laws.antt =====
-- Reading and writing bytes of memory.
use trust_tee.Prelude.{
  ℕ, zero, suc, ◌+◌, ◌≤◌, ◌<◌, ◌≡◌, refl, ap₂, ◌∙◌, ◌⊎◌, List, [], ◌∷◌, arith, ◌==◌, length,
  if◌then◌else◌,
}

-- The byte at each address.
abbrev pub Memory : Type 0
Memory = ℕ → ℕ

unfoldable pub write : ℕ → List ℕ → Memory → Memory
write a [] m i = m i
write a (b ∷ bs) m i = if a == i then b else write (a + 1) bs m i

unfoldable pub read : ℕ → ℕ → Memory → List ℕ
read a zero m = []
read a (suc n) m = m a ∷ read (a + 1) n m

-- The addresses from `a`, `n` of them, lie apart from those from `b`, `k` of them.
abbrev pub Apart : ℕ → ℕ → ℕ → ℕ → Type 0
Apart a n b k = (a + n ≤ b) ⊎ (b + k ≤ a)

pub write_outside :
    (a : ℕ) (bs : List ℕ) (m : Memory) (i : ℕ) → Apart i 1 a (length bs) → write a bs m i ≡ m i
unfolding write
write_outside a [] m i h = refl
write_outside a (b ∷ bs) m i h = ground (arith, write_outside (a + 1) bs m i)

pub read_agree :
    (a n : ℕ) (m m' : Memory)
    → ((i : ℕ) → a ≤ i → i < a + n → m i ≡ m' i)
    → read a n m ≡ read a n m'
unfolding read
read_agree a zero m m' h = refl
read_agree a (suc n) m m' h =
    ap₂ ◌∷◌ (h a (omega arith) (omega arith))
      (read_agree (a + 1) n m m' (λ i p q. h i (omega arith) (omega arith)))

pub read-write-Apart :
    (a n b : ℕ) (bs : List ℕ) (m : Memory)
    → Apart a n b (length bs)
    → read a n (write b bs m) ≡ read a n m
read-write-Apart a n b bs m h =
    read_agree a n (write b bs m) m (λ i p q. write_outside b bs m i (omega arith))

pub read-write : (a : ℕ) (bs : List ℕ) (m : Memory) → read a (length bs) (write a bs m) ≡ bs
unfolding read write
read-write a [] m = refl
read-write a (b ∷ bs) m = ap₂ ◌∷◌ first (rest ∙ read-write (a + 1) bs m)
  where
    first : write a (b ∷ bs) m a ≡ b
    first = ground arith

    rest :
        read (a + 1) (length bs) (write a (b ∷ bs) m)
        ≡ read (a + 1) (length bs) (write (a + 1) bs m)
    rest = read_agree (a + 1) (length bs) _ _ (λ i p q. ground arith)

pub length-read : (a n : ℕ) (m : Memory) → length (read a n m) ≡ n
unfolding read
length-read a zero m = refl
length-read a (suc n) m = omega (arith, length-read (a + 1) n m)
