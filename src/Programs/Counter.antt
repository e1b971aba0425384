-- ===== src/Programs/Counter.antt =====
-- src/examples/remote_simple.rs: a counter held by a remote trust, that two threads increment. An `i64` is its 64
-- bits.
use trust_tee.Prelude.{
  ℕ, zero, suc, ◌+◌, ◌*◌, ◌%◌, ◌^◌, ◌<◌, ◌≡◌, refl, sym, ap, ◌∙◌, subst, inl, inr, Bool, false, ◌-◌,
  ◌&&◌, if◌then◌else◌, Bool-cases, [], ◌∷◌, ◌++◌, get_elem?, ◌==◌, arith,
}
use trust_tee.Memory.{Repr}
use trust_tee.Closures.{Ran, returned, panicked, VTables}
use trust_tee.System.{System, seats}
use trust_tee.System.Log.{Log, calls_of, run_log, Calls}
use trust_tee.System.Log.Counts.{log_weight, log_weight-eq, All, All-head, All-tail}
use trust_tee.System.Log.Runs.{unanswered, all_answered}

-- `fn incr`, and what it does to the counter.
abbrev pub incremented : ℕ → ℕ
incremented c = (c + 1) % 2 ^ 64

-- With overflow checks, as in a development build, the addition panics at the largest `i64`.
unfoldable pub incr : Bool → Unit {0} → ℕ → Ran ℕ (Unit {0})
incr overflow_checks f c =
    if overflow_checks && c == 2 ^ 63 - 1 then panicked c else returned (incremented c) tt

pub incr_unchecked : (c : ℕ) → incr false tt c ≡ returned (incremented c) tt
unfolding incr
incr_unchecked c = refl

-- `fn get`; the cast to `u64` keeps the bits.
unfoldable pub get : Unit {0} → ℕ → Ran ℕ ℕ
get f c = returned c c

abbrev pub unchanged : ℕ → ℕ
unchanged c = c

-- `for _ in 0..iter { h.apply(incr); }` by a client.
unfoldable pub increments : ℕ → ℕ → Log ℕ
increments i zero = []
increments i (suc iter) = (i, incremented) ∷ increments i iter

-- All calls before the last `get`, as they would be posted one thread after the other.
unfoldable pub posted_in_turn : ℕ → Log ℕ
unfolding increments
posted_in_turn iter =
    increments 2 iter ++ (increments 1 iter ++ ((0, unchanged) ∷ (0, incremented) ∷ []))

-- A call that adds a constant.
abbrev Adds : (ℕ → ℕ) → Type 0
Adds g = (t : ℕ) → t < 2 ^ 64 → g t ≡ (t + g 0) % 2 ^ 64

incremented-Adds : Adds incremented
incremented-Adds t h = refl

unchanged-Adds : Adds unchanged
unchanged-Adds t h = omega arith

run_log-Adds :
    (l : Log ℕ) (t : ℕ)
    → t < 2 ^ 64
    → ((i : ℕ) → All Adds (calls_of i l))
    → run_log l t ≡ (t + log_weight (λ g. g 0) l) % 2 ^ 64
run_log-Adds [] t h all = omega arith
run_log-Adds ((k, g) ∷ l) t h all =
    let before = run_log-Adds l t h (λ i. All-tail Adds g k i l (all i)) in
    let adds = All-head Adds g k l (all k) (run_log l t) (omega arith) in omega arith

increments-All :
    (i k iter : ℕ) (l : Log ℕ)
    → All Adds (calls_of i l)
    → All Adds (calls_of i (increments k iter ++ l))
unfolding increments
increments-All i k zero l h = h
increments-All i k (suc iter) l h = elim (Bool-cases (k == i)) [
  | inl mine ↦ rw mine (incremented-Adds, increments-All i k iter l h)
  | inr other ↦ rw other (increments-All i k iter l h)
]

log_weight-increments :
    (k iter : ℕ) (l : Log ℕ)
    → log_weight (λ g. g 0) (increments k iter ++ l) ≡ iter + log_weight (λ g. g 0) l
unfolding increments
log_weight-increments k zero l = omega arith
log_weight-increments k (suc iter) l = omega (arith, log_weight-increments k iter l)

posted_in_turn-All : (iter i : ℕ) → All Adds (calls_of i (posted_in_turn iter))
unfolding posted_in_turn
posted_in_turn-All iter i = increments-All i 2 iter _ (increments-All i 1 iter _ first_two)
  where
    first_two : All Adds (calls_of i ((0, unchanged) ∷ (0, incremented) ∷ []))
    first_two = elim (Bool-cases (0 == i)) [
      | inl mine ↦ rw mine (unchanged-Adds, (incremented-Adds, tt))
      | inr other ↦ rw other tt
    ]

log_weight-in_turn : (iter : ℕ) → log_weight (λ g. g 0) (posted_in_turn iter) ≡ 1 + 2 * iter
unfolding posted_in_turn
log_weight-in_turn iter = omega (
  arith,
  log_weight-increments 2 iter (increments 1 iter ++ ((0, unchanged) ∷ (0, incremented) ∷ [])),
  log_weight-increments 1 iter ((0, unchanged) ∷ (0, incremented) ∷ []),
)

-- When each thread has posted its calls, in a build without overflow checks, in whatever order the threads took
-- turns, and all requests have been answered, and no thread of the trustee uses the counter itself, the last
-- `get` of `main` reads one more than twice the number of rounds, modulo 2^64: no increment is lost
-- and none runs twice.
pub remote_simple_final :
    (vtables : VTables ℕ) (repr : Repr ℕ) (iter : ℕ) {base : ℕ} {s : System ℕ} {posts : Log ℕ}
    → Calls vtables repr 0 base s posts
    → ((i : ℕ) → calls_of i posts ≡ calls_of i (posted_in_turn iter))
    → ((i : ℕ) → unanswered (get_elem? (seats s.worker) i) ≡ 0)
    → get tt s.worker.prop ≡ returned ((1 + 2 * iter) % 2 ^ 64) ((1 + 2 * iter) % 2 ^ 64)
unfolding get
remote_simple_final vtables repr iter {base} {s} {posts} cs each answered =
    let (log, ran, equal) = all_answered vtables repr cs answered in
    let same_calls : ((i : ℕ) → calls_of i (posted_in_turn iter) ≡ calls_of i log) =
      λ i. sym (each i) ∙ equal i in
    let final : s.worker.prop ≡ (1 + 2 * iter) % 2 ^ 64 =
      ran
      ∙ run_log-Adds log 0 (omega arith)
          (λ i. subst (All Adds) (same_calls i) (posted_in_turn-All iter i))
      ∙ ap (λ n. n % 2 ^ 64)
          (ap (λ n. 0 + n)
              (sym (log_weight-eq (λ g. g 0) (posted_in_turn iter) log same_calls)
                ∙ log_weight-in_turn iter)
            ∙ plain) in
    ap (λ c. returned c c) final
  where
    plain : 0 + (1 + 2 * iter) ≡ 1 + 2 * iter
    plain = omega arith
