-- ===== src/Runtime/Pool/Shutdown.antt =====
-- src/runtime/runtime.rs: the end of the fibers, after the worker has met a terminate request.
use mathlib.Core.Option
use trust_tee.Prelude.{
  ℕ, zero, suc, ◌+◌, ◌*◌, ◌≤◌, ◌<◌, ◌≡◌, refl, sym, ap, ◌∙◌, subst, ◌⊎◌, inl, inr, Bool, true,
  false, ◌&&◌, List, [], ◌∷◌, some, length, get_elem?, set, Bool-cases, arith,
}
use trust_tee.Slots.{RequestRecordHeader}
use trust_tee.Runtime.Records.{Job, execute, shutdown}
use trust_tee.Runtime.Pool.{
  Phase, Fiber, Fibers, has_ended, new_fiber, take, receive, job_done, job_panicked, Move, received,
  done, panicked, swept, Reach,
}
use trust_tee.Runtime.Pool.Invariant.{
  IsPool, IsTidy, idle_fiber, occurrences, waits_in, list_cases, pooled-idle, swept-message,
  terminate_round-pooled, Move-IsPool, Reach-IsPool,
}

-- How many moves a fiber has before it, at most.
abbrev pub steps_left : Phase → List Job → ℕ
steps_left Phase.receiving [] = 2
steps_left Phase.receiving (execute hdr chan req_ready ∷ jobs) = 4
steps_left Phase.receiving (shutdown ∷ jobs) = 1
steps_left (Phase.running job) inbox = 3
steps_left Phase.ended inbox = 0

abbrev pub fiber_left : Fiber → ℕ
fiber_left f = steps_left f.phase f.inbox

abbrev pub all_left : List Fiber → ℕ
all_left [] = 0
all_left (f ∷ fs) = fiber_left f + all_left fs

abbrev pub all_ended : List Fiber → Bool
all_ended [] = true
all_ended (f ∷ fs) = has_ended f.phase && all_ended fs

-- `n` moves.
pub data Moves : ℕ → Fibers → Fibers → Type 0 where
  no_move : {s : Fibers} → Moves 0 s s
  after :
      {n : ℕ} {jobs : List Job} {s s' s'' : Fibers}
      → Move s jobs s'
      → Moves n s' s''
      → Moves (suc n) s s''

all_left-set :
    (fs : List Fiber) (i : ℕ) (f f' : Fiber)
    → get_elem? fs i ≡ some f
    → all_left (set fs i f') + fiber_left f ≡ all_left fs + fiber_left f'
all_left-set [] i f f' at = cc at
all_left-set (x ∷ xs) zero f f' at = omega (arith, ap fiber_left (Option.some_inj.0 at))
all_left-set (x ∷ xs) (suc i) f f' at = omega (arith, all_left-set xs i f f' at)

steps_left-le : (phase : Phase) (inbox : List Job) → steps_left phase inbox ≤ 4
steps_left-le Phase.receiving [] = omega arith
steps_left-le Phase.receiving (execute hdr chan req_ready ∷ jobs) = omega arith
steps_left-le Phase.receiving (shutdown ∷ jobs) = omega arith
steps_left-le (Phase.running job) inbox = omega arith
steps_left-le Phase.ended inbox = omega arith

all_left-le : (fs : List Fiber) → all_left fs ≤ 4 * length fs
all_left-le [] = omega arith
all_left-le (f ∷ fs) = omega (arith, steps_left-le f.phase f.inbox, all_left-le fs)

receive-left :
    (f f' : Fiber) → receive f ≡ some f' → IsTidy f.inbox f.phase → fiber_left f' < fiber_left f
unfolding receive take
receive-left f f' h t = go f.inbox f.phase h t
  where
    go :
        (inbox : List Job) (phase : Phase)
        → receive (record { inbox = inbox; phase = phase }) ≡ some f'
        → IsTidy inbox phase
        → fiber_left f' < steps_left phase inbox
    go [] Phase.receiving e t = cc e
    go (execute hdr chan req_ready ∷ rest) Phase.receiving e t =
        omega (arith, ap fiber_left (Option.some_inj.0 e))
    go (shutdown ∷ rest) Phase.receiving e t = omega (arith, ap fiber_left (Option.some_inj.0 e))
    go inbox (Phase.running job) e t = cc e
    go inbox Phase.ended e t = cc e

-- Each move leaves fewer.
Move-left :
    {s s' : Fibers} {jobs : List Job}
    → Move s jobs s'
    → IsPool s
    → all_left s'.fibers < all_left s.fibers
unfolding job_done job_panicked
Move-left {s} (received i f f' at got) p =
    omega (arith, all_left-set s.fibers i f f' at, receive-left f f' got (p.tidy i f at))
Move-left {s} (done i f job at runs) p =
    let f' = record f { phase = Phase.receiving } in
    omega (
      arith,
      all_left-set s.fibers i f f' at,
      ap (λ ph. steps_left ph f.inbox) runs,
      ap (steps_left Phase.receiving) (subst (IsTidy f.inbox) runs (p.tidy i f at)),
    )
Move-left {s} (panicked i f job at runs) p = omega (
  arith,
  all_left-set s.fibers i f (record f { phase = Phase.ended }) at,
  ap (λ ph. steps_left ph f.inbox) runs,
)
Move-left {s} (swept s' shuts) p =
    let (tx, txs, at, eq) = swept-message s s' p shuts in
    omega (
      arith,
      ap (λ (x : Fibers). all_left x.fibers) eq,
      all_left-set s.fibers tx idle_fiber (new_fiber shutdown) (pooled-idle s tx txs p at),
    )

Moves-left :
    {n : ℕ} {s s' : Fibers} → Moves n s s' → IsPool s → n + all_left s'.fibers ≤ all_left s.fibers
Moves-left no_move p = omega arith
Moves-left (after m ms) p = omega (arith, Move-left m p, Moves-left ms (Move-IsPool m p))

Moves-IsPool : {n : ℕ} {s s' : Fibers} → Moves n s s' → IsPool s → IsPool s'
Moves-IsPool no_move p = p
Moves-IsPool (after m ms) p = Moves-IsPool ms (Move-IsPool m p)

-- Either all fibers have ended, or one has not.
find_alive :
    (fs : List Fiber)
    → (all_ended fs ≡ true)
      ⊎ ((i : ℕ) × (f : Fiber) × (get_elem? fs i ≡ some f) × (has_ended f.phase ≡ false))
find_alive [] = inl refl
find_alive (f ∷ fs) = elim (Bool-cases (has_ended f.phase)) [
  | inr alive ↦ inr (0, f, refl, alive)
  | inl over ↦ elim (find_alive fs) [
    | inl all_over ↦ inl (rw (over, all_over))
    | inr (i, g, at, alive) ↦ inr (suc i, g, at, alive)
  ]
]

first_true : (a b : Bool) → a && b ≡ true → a ≡ true
first_true a b h = ground arith

second_true : (a b : Bool) → a && b ≡ true → b ≡ true
second_true a b h = ground arith

all_ended-get :
    (fs : List Fiber) (i : ℕ) (f : Fiber)
    → all_ended fs ≡ true
    → get_elem? fs i ≡ some f
    → has_ended f.phase ≡ true
all_ended-get [] i f over at = cc at
all_ended-get (x ∷ xs) zero f over at =
    ap (λ (y : Fiber). has_ended y.phase) (sym (Option.some_inj.0 at)) ∙ first_true _ _ over
all_ended-get (x ∷ xs) (suc i) f over at = all_ended-get xs i f (second_true _ _ over) at

receive_first :
    (hdr : RequestRecordHeader) (chan : ℕ) (req_ready : Bool) (js : List Job)
    → receive (record { inbox = execute hdr chan req_ready ∷ js; phase = Phase.receiving })
      ≡ some (record { inbox = js; phase = Phase.running (execute hdr chan req_ready) })
unfolding receive take
receive_first hdr chan req_ready js = refl

receive_last :
    (js : List Job)
    → receive (record { inbox = shutdown ∷ js; phase = Phase.receiving })
      ≡ some (record { inbox = js; phase = Phase.ended })
unfolding receive take
receive_last js = refl

module _ (s : Fibers) (p : IsPool s) where
  -- A fiber that has not ended can move, or the terminator can wake it.
  alive_moves :
      (i : ℕ) (f : Fiber)
      → get_elem? s.fibers i ≡ some f
      → has_ended f.phase ≡ false
      → (jobs : List Job) × (s' : Fibers) × Move s jobs s'
  alive_moves i f at alive = go f.inbox f.phase at alive
    where
      go :
          (inbox : List Job) (phase : Phase)
          → get_elem? s.fibers i ≡ some (record { inbox = inbox; phase = phase })
          → has_ended phase ≡ false
          → (jobs : List Job) × (s' : Fibers) × Move s jobs s'
      go [] Phase.receiving at alive = elim (list_cases s.fiber_pool) [
        | inl empty ↦ absurd (omega (arith, p.pooled i, ap waits_in at, ap (occurrences i) empty))
        | inr (tx, txs, full) ↦ ([], _, swept _ (terminate_round-pooled s tx txs p full))
      ]
      go (execute hdr chan req_ready ∷ js) Phase.receiving at alive =
          (_, _, received i _ _ at (receive_first hdr chan req_ready js))
      go (shutdown ∷ js) Phase.receiving at alive = (_, _, received i _ _ at (receive_last js))
      go inbox (Phase.running job) at alive = ([], _, done i _ job at refl)
      go inbox Phase.ended at alive = cc alive

  ended_pool : all_ended s.fibers ≡ true → s.fiber_pool ≡ []
  ended_pool over = elim (list_cases s.fiber_pool) [
    | inl empty ↦ empty
    | inr (tx, txs, full) ↦
        cc (all_ended-get s.fibers tx idle_fiber over (pooled-idle s tx txs p full))
  ]

-- After the worker has met a terminate request it hands over no more jobs. Then the fibers and the
-- terminator make at most four moves for each fiber; and where no move is left, every fiber has ended and the
-- pool is empty, so that the joins of the fibers and of the terminator return.
pub terminate_ends :
    {given begun : List Job} {s s' : Fibers} {n : ℕ}
    → Reach given begun s
    → Moves n s s'
    → (n ≤ 4 * length s.fibers)
      × (((jobs : List Job) × (s'' : Fibers) × Move s' jobs s'')
          ⊎ ((all_ended s'.fibers ≡ true) × (s'.fiber_pool ≡ [])))
terminate_ends {s} {s'} r ms =
    let p = Reach-IsPool r in
    let p' = Moves-IsPool ms p in
    (
      omega (arith, Moves-left ms p, all_left-le s.fibers),
      elim (find_alive s'.fibers) [
        | inl over ↦ inr (over, ended_pool s' p' over)
        | inr (i, f, at, alive) ↦ inl (alive_moves s' p' i f at alive)
      ],
    )
