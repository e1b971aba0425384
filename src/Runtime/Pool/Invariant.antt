-- ===== src/Runtime/Pool/Invariant.antt =====
-- src/runtime/runtime.rs: the pool against the fibers that wait.
use mathlib.Core.Option
use native.Mathlib.Decide.{ℕ_discrete}
use trust_tee.Prelude.{
  ℕ, suc, ◌+◌, ◌≤◌, ◌≡◌, refl, sym, ap, ◌∙◌, subst, ◌⊎◌, inl, inr, ◌==◌, List, [], ◌∷◌, ◌++◌,
  Option, none, some, length, get_elem?, set, get_elem?-set, get_elem?-set_if, get_elem?-snoc,
  get_elem?-snoc_cases, if◌then◌else◌, arith,
}
use trust_tee.Runtime.Records.{Job, execute, shutdown}
use trust_tee.Runtime.Pool.{
  Phase, Fiber, Fibers, new_fiber, delivered, send, after_send, dispatch_to, dispatch, take,
  receive, job_done, job_panicked, shut, terminate_round, Move, received, done, panicked, swept,
  Reach, start, hand, move,
}

abbrev pub occurrences : ℕ → List ℕ → ℕ
occurrences i [] = 0
occurrences i (tx ∷ txs) = (if tx == i then 1 else 0) + occurrences i txs

-- One for a fiber that waits for a message, and zero for any other.
abbrev pub waits : Phase → List Job → ℕ
waits Phase.receiving [] = 1
waits Phase.receiving (job ∷ jobs) = 0
waits (Phase.running job) inbox = 0
waits Phase.ended inbox = 0

abbrev pub waits_in : Option Fiber → ℕ
waits_in none = 0
waits_in (some f) = waits f.phase f.inbox

-- At most one message, and none behind a job or after the end.
abbrev pub IsTidy : List Job → Phase → Type 0
IsTidy inbox Phase.receiving = length inbox ≤ 1
IsTidy inbox (Phase.running job) = inbox ≡ []
IsTidy inbox Phase.ended = inbox ≡ []

-- The pool holds each fiber that waits, once, and no other.
pub record IsPool (s : Fibers) : Type 0 where
  pub pooled : (i : ℕ) → occurrences i s.fiber_pool ≡ waits_in (get_elem? s.fibers i)
  pub tidy : (i : ℕ) (f : Fiber) → get_elem? s.fibers i ≡ some f → IsTidy f.inbox f.phase

occurrences-snoc :
    (i j : ℕ) (xs : List ℕ)
    → occurrences i (xs ++ (j ∷ [])) ≡ occurrences i xs + (if j == i then 1 else 0)
occurrences-snoc i j [] = omega arith
occurrences-snoc i j (x ∷ xs) = omega (arith, occurrences-snoc i j xs)

-- One fiber changes, and its place in the pool with it.
IsPool-set :
    (s : Fibers) (i : ℕ) (f f' : Fiber) (pool : List ℕ)
    → IsPool s
    → get_elem? s.fibers i ≡ some f
    → IsTidy f'.inbox f'.phase
    → ((j : ℕ)
        → occurrences j pool + (if i == j then waits f.phase f.inbox else 0)
          ≡ occurrences j s.fiber_pool + (if i == j then waits f'.phase f'.inbox else 0))
    → IsPool (record { fibers = set s.fibers i f'; fiber_pool = pool })
IsPool-set s i f f' pool p at tidy' balance = record {
  pooled = λ j. elim (ℕ_discrete i j) [
    | yes same_place ↦
        ground (arith, p.pooled j, balance j, ap waits_in (get_elem?-set_if s.fibers i j f' f at))
    | no other ↦
        ground (arith, p.pooled j, balance j, ap waits_in (get_elem?-set_if s.fibers i j f' f at))
  ];
  tidy = λ j g h. elim (get_elem?-set s.fibers i j f' g h) [
    | inl changed ↦ subst (λ (x : Fiber). IsTidy x.inbox x.phase) (sym changed.1) tidy'
    | inr kept ↦ p.tidy j g kept.1
  ];
}

abbrev pub idle_fiber : Fiber
idle_fiber = record { inbox = []; phase = Phase.receiving }

waits_in-idle : (o : Option Fiber) (n : ℕ) → waits_in o ≡ suc n → o ≡ some idle_fiber
waits_in-idle none n h = absurd (omega arith)
waits_in-idle (some f) n h = go f.inbox f.phase h
  where
    go :
        (inbox : List Job) (phase : Phase)
        → waits phase inbox ≡ suc n
        → some (record { inbox = inbox; phase = phase }) ≡ some idle_fiber
    go [] Phase.receiving e = refl
    go (job ∷ jobs) Phase.receiving e = absurd (omega arith)
    go inbox (Phase.running job) e = absurd (omega arith)
    go inbox Phase.ended e = absurd (omega arith)

module _ (s : Fibers) (tx : ℕ) (txs : List ℕ) (p : IsPool s) (at : s.fiber_pool ≡ tx ∷ txs) where
  -- The fiber of a sender in the pool waits.
  pub pooled-idle : get_elem? s.fibers tx ≡ some idle_fiber
  pooled-idle =
      waits_in-idle (get_elem? s.fibers tx) (occurrences tx txs)
        (sym (p.pooled tx) ∙ ap (occurrences tx) at ∙ ground arith)

  -- It gets a message, and its sender leaves the pool.
  pub IsPool-message :
      (job : Job) → IsPool (record { fibers = set s.fibers tx (new_fiber job); fiber_pool = txs })
  IsPool-message job =
      IsPool-set s tx idle_fiber (new_fiber job) txs p pooled-idle (omega arith)
        (λ j. ground (arith, ap (occurrences j) at))

  -- The message arrives.
  sent : (job : Job) → send tx job s.fibers ≡ some (set s.fibers tx (new_fiber job))
  unfolding send delivered
  sent job = rw pooled-idle

  dispatch-pooled :
      (job : Job)
      → dispatch job s ≡ record { fibers = set s.fibers tx (new_fiber job); fiber_pool = txs }
  unfolding dispatch dispatch_to
  dispatch-pooled job =
      ap (λ xs. dispatch_to job xs s.fibers) at
      ∙ ap (λ o. after_send txs o (dispatch_to job txs s.fibers)) (sent job)

  pub terminate_round-pooled :
      terminate_round s
      ≡ some (record { fibers = set s.fibers tx (new_fiber shutdown); fiber_pool = txs })
  unfolding terminate_round shut
  terminate_round-pooled = rw (at, sent shutdown)

pub list_cases : {A : Type 0} (xs : List A) → (xs ≡ []) ⊎ ((x : A) × (ys : List A) × (xs ≡ x ∷ ys))
list_cases [] = inl refl
list_cases (x ∷ xs) = inr (x, xs, refl)

-- A job goes to a fiber that waits in the pool, or to a new one if the pool is empty.
pub dispatched :
    (job : Job) (s : Fibers)
    → IsPool s
    → ((tx : ℕ) × (txs : List ℕ) × (s.fiber_pool ≡ tx ∷ txs)
        × (dispatch job s ≡ record { fibers = set s.fibers tx (new_fiber job); fiber_pool = txs }))
      ⊎ ((s.fiber_pool ≡ [])
          × (dispatch job s
              ≡ record { fibers = s.fibers ++ (new_fiber job ∷ []); fiber_pool = [] }))
unfolding dispatch dispatch_to
dispatched job s p = elim (list_cases s.fiber_pool) [
  | inl empty ↦ inr (empty, rw empty)
  | inr (tx, txs, at) ↦ inl (tx, txs, at, dispatch-pooled s tx txs p at job)
]

pub terminate_round_empty : (s : Fibers) → s.fiber_pool ≡ [] → terminate_round s ≡ none
unfolding terminate_round
terminate_round_empty s empty = rw empty

pub swept-message :
    (s s' : Fibers)
    → IsPool s
    → terminate_round s ≡ some s'
    → (tx : ℕ) × (txs : List ℕ) × (s.fiber_pool ≡ tx ∷ txs)
      × (s' ≡ record { fibers = set s.fibers tx (new_fiber shutdown); fiber_pool = txs })
unfolding terminate_round
swept-message s s' p shuts = elim (list_cases s.fiber_pool) [
  | inl empty ↦ cc (sym shuts ∙ terminate_round_empty s empty)
  | inr (tx, txs, at) ↦
      (tx, txs, at, Option.some_inj.0 (sym shuts ∙ terminate_round-pooled s tx txs p at))
]

pub IsPool-spawn :
    (s : Fibers) (job : Job)
    → IsPool s
    → s.fiber_pool ≡ []
    → IsPool (record { fibers = s.fibers ++ (new_fiber job ∷ []); fiber_pool = [] })
IsPool-spawn s job p empty = record {
  pooled = λ j. ground (
    arith,
    p.pooled j,
    ap (occurrences j) empty,
    ap waits_in (get_elem?-snoc s.fibers (new_fiber job) j),
  );
  tidy = λ j g h. elim (get_elem?-snoc_cases s.fibers (new_fiber job) j g h) [
    | inl new ↦ subst (λ (x : Fiber). IsTidy x.inbox x.phase) (sym new.0) (omega arith)
    | inr old ↦ p.tidy j g old
  ];
}

-- What a fiber that receives a message was, and becomes.
pub record Received (f f' : Fiber) : Type 0 where
  pub was : waits f.phase f.inbox ≡ 0
  pub becomes : waits f'.phase f'.inbox ≡ 0
  pub keeps_tidy : IsTidy f.inbox f.phase → IsTidy f'.inbox f'.phase

pub few-nil : (job : Job) (rest : List Job) → length (job ∷ rest) ≤ 1 → rest ≡ []
few-nil job [] h = refl
few-nil job (j ∷ js) h = absurd (omega arith)

pub receive-Received : (f f' : Fiber) → receive f ≡ some f' → Received f f'
unfolding receive take
receive-Received f f' h = go f.inbox f.phase h
  where
    go :
        (inbox : List Job) (phase : Phase)
        → receive (record { inbox = inbox; phase = phase }) ≡ some f'
        → Received (record { inbox = inbox; phase = phase }) f'
    go [] Phase.receiving e = cc e
    go (execute hdr chan req_ready ∷ rest) Phase.receiving e =
        subst (Received _) (Option.some_inj.0 e) (record {
          was = refl;
          becomes = refl;
          keeps_tidy = few-nil (execute hdr chan req_ready) rest;
        })
    go (shutdown ∷ rest) Phase.receiving e =
        subst (Received _) (Option.some_inj.0 e)
          (record { was = refl; becomes = refl; keeps_tidy = few-nil shutdown rest })
    go inbox (Phase.running job) e = cc e
    go inbox Phase.ended e = cc e

pub Move-IsPool : {s s' : Fibers} {jobs : List Job} → Move s jobs s' → IsPool s → IsPool s'
unfolding job_done job_panicked
Move-IsPool {s} (received i f f' at got) p =
    let r = receive-Received f f' got in
    IsPool-set s i f f' s.fiber_pool p at (r.keeps_tidy (p.tidy i f at))
      (λ j. ground (arith, r.was, r.becomes))
Move-IsPool {s} (done i f job at runs) p =
    let empty = subst (IsTidy f.inbox) runs (p.tidy i f at) in
    IsPool-set s i f (record f { phase = Phase.receiving }) (s.fiber_pool ++ (i ∷ [])) p at
      (omega (arith, ap length empty))
      (λ j. ground (
        arith,
        occurrences-snoc j i s.fiber_pool,
        ap (λ ph. waits ph f.inbox) runs,
        ap (waits Phase.receiving) empty,
      ))
Move-IsPool {s} (panicked i f job at runs) p =
    IsPool-set s i f (record f { phase = Phase.ended }) s.fiber_pool p at
      (subst (IsTidy f.inbox) runs (p.tidy i f at))
      (λ j. ground (arith, ap (λ ph. waits ph f.inbox) runs))
Move-IsPool {s} (swept s' shuts) p =
    let (tx, txs, at, eq) = swept-message s s' p shuts in
    subst IsPool (sym eq) (IsPool-message s tx txs p at shutdown)

dispatch-IsPool : (job : Job) (s : Fibers) → IsPool s → IsPool (dispatch job s)
dispatch-IsPool job s p = elim (dispatched job s p) [
  | inl (tx, txs, at, eq) ↦ subst IsPool (sym eq) (IsPool-message s tx txs p at job)
  | inr (empty, eq) ↦ subst IsPool (sym eq) (IsPool-spawn s job p empty)
]

-- It holds in every state that the worker's fibers come to.
pub Reach-IsPool : {given begun : List Job} {s : Fibers} → Reach given begun s → IsPool s
Reach-IsPool start = record { pooled = λ i. refl; tidy = λ i f h. cc h }
Reach-IsPool (hand {s} hdr chan req_ready r) =
    dispatch-IsPool (execute hdr chan req_ready) s (Reach-IsPool r)
Reach-IsPool (move r m) = Move-IsPool m (Reach-IsPool r)
