-- ===== src/Memory/Numbers.antt =====
-- Little-endian numbers, the layout of a struct of numbers, and the representation of a type.
use native.Mathlib.Nat.{pow-suc, pow-le-pow_right}
use trust_tee.Prelude.{
  ℕ, zero, suc, ◌+◌, ◌*◌, ◌/◌, ◌%◌, ◌^◌, ◌≤◌, ◌<◌, ◌≡◌, refl, ap, subst, ◌∙◌, List, [], ◌∷◌, ◌++◌,
  arith, length, length-append,
}
use trust_tee.Memory.Laws.{Memory, read, write, read-write}

-- The `w` bytes of a number, the lowest first.
pub le_bytes : ℕ → ℕ → List ℕ
le_bytes zero x = []
le_bytes (suc w) x = (x % 256) ∷ le_bytes w (x / 256)

-- The number of `w` bytes, and the bytes that follow them.
pub split_le : ℕ → List ℕ → ℕ × List ℕ
split_le zero bs = (0, bs)
split_le (suc w) [] = (0, [])
split_le (suc w) (b ∷ bs) = let (x, rest) = split_le w bs in (b + 256 * x, rest)

pub length-le_bytes : (w x : ℕ) → length (le_bytes w x) ≡ w
unfolding le_bytes
length-le_bytes zero x = refl
length-le_bytes (suc w) x = ap suc (length-le_bytes w (x / 256))

split_le-le_bytes :
    (w x : ℕ) (rest : List ℕ) → x < 256 ^ w → split_le w (le_bytes w x ++ rest) ≡ (x, rest)
unfolding le_bytes split_le
split_le-le_bytes zero x rest h = ground arith
split_le-le_bytes (suc w) x rest h =
    ground (arith, split_le-le_bytes w (x / 256) rest (omega (arith, pow-suc 256 w)))

-- A struct of numbers: the width of each field in bytes, and its value.
unfoldable pub fields_bytes : List (ℕ × ℕ) → List ℕ
fields_bytes [] = []
fields_bytes ((w, x) ∷ fs) = le_bytes w x ++ fields_bytes fs

unfoldable pub fields_values : List ℕ → List ℕ → List ℕ
fields_values [] bs = []
fields_values (w ∷ ws) bs = (split_le w bs).0 ∷ fields_values ws (split_le w bs).1

abbrev pub Fit : List (ℕ × ℕ) → Type 0
Fit [] = Unit {0}
Fit ((w, x) ∷ fs) = (x < 256 ^ w) × Fit fs

abbrev pub widths : List (ℕ × ℕ) → List ℕ
widths [] = []
widths ((w, x) ∷ fs) = w ∷ widths fs

abbrev pub values : List (ℕ × ℕ) → List ℕ
values [] = []
values ((w, x) ∷ fs) = x ∷ values fs

pub fields_round_trip :
    (fs : List (ℕ × ℕ)) → Fit fs → fields_values (widths fs) (fields_bytes fs) ≡ values fs
unfolding fields_values fields_bytes
fields_round_trip [] h = refl
fields_round_trip ((w, x) ∷ fs) h =
    rw (split_le-le_bytes w x (fields_bytes fs) h.0) (ap (◌∷◌ x) (fields_round_trip fs h.1))

abbrev pub sum : List ℕ → ℕ
sum [] = 0
sum (x ∷ xs) = x + sum xs

pub length-fields_bytes : (fs : List (ℕ × ℕ)) → length (fields_bytes fs) ≡ sum (widths fs)
unfolding fields_bytes
length-fields_bytes [] = refl
length-fields_bytes ((w, x) ∷ fs) = omega (
  arith,
  length-append (le_bytes w x) (fields_bytes fs),
  length-le_bytes w x,
  length-fields_bytes fs,
)

-- How a value of a type stands in memory: `size_of`, `align_of`, its bytes. The compiler allows no
-- alignment above 2 ^ 29 and no size above `isize::MAX`.
pub record Repr (A : Type 0) : Type 0 where
  pub size : ℕ
  pub align_log : ℕ
  pub encode : A → List ℕ
  pub decode : List ℕ → A
  pub size_bound : size < 2 ^ 63
  pub align_bound : align_log ≤ 29
  pub length-encode : (a : A) → length (encode a) ≡ size
  pub decode-encode : (a : A) → decode (encode a) ≡ a

abbrev pub align_of : {A : Type 0} → Repr A → ℕ
align_of r = 2 ^ r.align_log

pub align_of-le : {A : Type 0} (r : Repr A) → align_of r ≤ 2 ^ 29
align_of-le r = pow-le-pow_right {n = 2} (omega arith) {j = 29} r.align_bound

-- A value that was written is read back.
pub read-encode :
    {A : Type 0} (r : Repr A) (a : ℕ) (x : A) (m : Memory)
    → r.decode (read a r.size (write a (r.encode x) m)) ≡ x
read-encode r a x m =
    ap r.decode (
      subst (λ n. read a n (write a (r.encode x) m) ≡ r.encode x) (r.length-encode x)
        (read-write a (r.encode x) m))
    ∙ r.decode-encode x

-- A type with one value takes no bytes.
abbrev pub unit_repr : Repr (Unit {0})
unit_repr = record {
  size = 0;
  align_log = 0;
  encode = λ _. [];
  decode = λ _. tt;
  size_bound = omega arith;
  align_bound = omega arith;
  length-encode = λ _. refl;
  decode-encode = λ _. refl;
}
