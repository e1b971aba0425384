-- ===== src/Util/ThreadId.antt =====
-- src/util/thread_id.rs: the numbers of threads. A thread takes its number from the counter when it first
-- asks for it, and keeps it.
use trust_tee.Prelude.{
  ℕ, ◌+◌, ◌%◌, ◌^◌, ◌≤◌, ◌<◌, ◌≡◌, ◌≢◌, refl, sym, ap, ◌∙◌, ◌⊎◌, inl, inr, true, ◌==◌, ==_self,
  Bool-cases, Option, none, some, arith, if◌then◌else◌,
}
use trust_tee.Slots.{usize_mod}

-- `thread_id_counter`, and the thread-local cell of each thread; threads have names of their own here.
pub record Ids : Type 0 where
  pub thread_id_counter : ℕ
  pub thread_id : ℕ → Option ℕ

abbrev pub initial : Ids
initial = record { thread_id_counter = 1; thread_id = λ t. none }

-- The number of thread `t`.
unfoldable pub get_thread_id : ℕ → Ids → ℕ × Ids
get_thread_id t s = elim (s.thread_id t) [
  | some n ↦ (n, s)
  | none ↦ (
    s.thread_id_counter,
    record {
      thread_id_counter = (s.thread_id_counter + 1) % usize_mod;
      thread_id = λ u. if u == t then some s.thread_id_counter else s.thread_id u;
    },
  )
]

-- Numbers that were given are below the counter, not zero, and of one thread each.
pub record IsIds (s : Ids) : Type 0 where
  pub positive : 0 < s.thread_id_counter
  pub below : (t n : ℕ) → s.thread_id t ≡ some n → (0 < n) × (n < s.thread_id_counter)
  pub one_thread : (t u n : ℕ) → s.thread_id t ≡ some n → s.thread_id u ≡ some n → t ≡ u

pub initial-IsIds : IsIds initial
initial-IsIds = record {
  positive = omega arith;
  below = λ t n h. cc h;
  one_thread = λ t u n h k. cc h;
}

pub ==→eq : (a b : ℕ) → (a == b) ≡ true → a ≡ b
==→eq a b h = ground arith

new-cases :
    (u t c n : ℕ) (o : Option ℕ)
    → (if u == t then some c else o) ≡ some n
    → ((u ≡ t) × (c ≡ n)) ⊎ (o ≡ some n)
new-cases u t c n o h = elim (Bool-cases (u == t)) [
  | inl same ↦ inl (==→eq u t same, cc (ap (λ b. if b then some c else o) same, h))
  | inr other ↦ inr (sym (ap (λ b. if b then some c else o) other) ∙ h)
]

-- The number is that of the thread from now on, the invariant stays, and other threads keep theirs.
pub record Given (t : ℕ) (s : Ids) (n : ℕ) (s' : Ids) : Type 0 where
  pub is_ids : IsIds s'
  pub given : s'.thread_id t ≡ some n
  pub grown : s'.thread_id_counter ≤ s.thread_id_counter + 1
  pub kept : (u m : ℕ) → s.thread_id u ≡ some m → s'.thread_id u ≡ some m

pub get_thread_id-Given :
    (t : ℕ) (s : Ids)
    → IsIds s
    → s.thread_id_counter + 1 < 2 ^ 64
    → Given t s (get_thread_id t s).0 (get_thread_id t s).1
unfolding get_thread_id
get_thread_id-Given t s is room = go (s.thread_id t) refl
  where
    go :
        (o : Option ℕ)
        → s.thread_id t ≡ o
        → (let r : ℕ × Ids = elim o [
          | some n ↦ (n, s)
          | none ↦ (
            s.thread_id_counter,
            record {
              thread_id_counter = (s.thread_id_counter + 1) % usize_mod;
              thread_id = λ u. if u == t then some s.thread_id_counter else s.thread_id u;
            },
          )
        ] in
            Given t s r.0 r.1)
    go (some n) e = record { is_ids = is; given = e; grown = omega arith; kept = λ u m h. h }
    go none e = record {
      is_ids = record {
        positive = omega (arith, is.positive);
        below = λ u n h. elim (new-cases u t s.thread_id_counter n (s.thread_id u) h) [
          | inl new ↦ omega (arith, is.positive, new.1)
          | inr old ↦ omega (arith, is.below u n old)
        ];
        one_thread = λ u v n h k. elim (new-cases u t s.thread_id_counter n (s.thread_id u) h) [
          | inl new ↦ elim (new-cases v t s.thread_id_counter n (s.thread_id v) k) [
            | inl new' ↦ new.0 ∙ sym new'.0
            | inr old' ↦ omega (arith, is.below v n old', new.1)
          ]
          | inr old ↦ elim (new-cases v t s.thread_id_counter n (s.thread_id v) k) [
            | inl new' ↦ omega (arith, is.below u n old, new'.1)
            | inr old' ↦ is.one_thread u v n old old'
          ]
        ];
      };
      given = rw (==_self t);
      grown = omega arith;
      kept = λ u m h. elim (Bool-cases (u == t)) [
        | inl same ↦ cc (ap s.thread_id (==→eq u t same), e, h)
        | inr other ↦ rw other h
      ];
    }

pub get_thread_id-again : (t n : ℕ) (s : Ids) → s.thread_id t ≡ some n → (get_thread_id t s).0 ≡ n
unfolding get_thread_id
get_thread_id-again t n s e = rw (get_thread_id, e)

-- Each thread gets a number that is not zero, asks for it again with the same answer, and shares it with no
-- other thread, as long as the counter has not run out.
pub get_thread_id_lem :
    (t u : ℕ) (s : Ids)
    → IsIds s
    → s.thread_id_counter + 2 < 2 ^ 64
    → t ≢ u
    → (let (n, s') = get_thread_id t s in
        let (m, s'') = get_thread_id u s' in
        (0 < n) × (n ≢ m) × IsIds s'' × ((get_thread_id t s'').0 ≡ n))
get_thread_id_lem t u s is room other =
    let first = get_thread_id-Given t s is (omega arith) in
    let second =
      get_thread_id-Given u (get_thread_id t s).1 first.is_ids (omega (arith, first.grown)) in
    let kept = second.kept t (get_thread_id t s).0 first.given in
    (
      (first.is_ids.below t _ first.given).0,
      λ e. other (second.is_ids.one_thread t u _ kept (second.given ∙ ap some (sym e))),
      second.is_ids,
      get_thread_id-again t _ _ kept,
    )
