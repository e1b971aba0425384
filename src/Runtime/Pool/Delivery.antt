-- ===== src/Runtime/Pool/Delivery.antt =====
-- src/runtime/runtime.rs: what becomes of the jobs that the worker hands to fibers.
use mathlib.Core.List.{
  Perm, perm_middle, perm_append_comm, perm_append_singleton, append_assoc, append-nil,
}
use mathlib.Core.List.Perm
use mathlib.Core.Option
use trust_tee.Prelude.{
  ℕ, zero, suc, ◌≡◌, refl, sym, ap, ◌∙◌, subst, inl, inr, List, [], ◌∷◌, ◌++◌, some, get_elem?, set,
}
use trust_tee.Runtime.Records.{Job, execute, shutdown}
use trust_tee.Runtime.Pool.{
  Phase, Fiber, Fibers, new_fiber, dispatch, take, receive, job_done, job_panicked, starts, Move,
  received, done, panicked, swept, Reach, start, hand, move,
}
use trust_tee.Runtime.Pool.Invariant.{
  IsPool, IsTidy, idle_fiber, few-nil, pooled-idle, dispatched, swept-message, Reach-IsPool,
}

-- The jobs among messages, and those that wait in the channels of fibers.
abbrev pub executes : List Job → List Job
executes [] = []
executes (execute hdr chan req_ready ∷ jobs) = execute hdr chan req_ready ∷ executes jobs
executes (shutdown ∷ jobs) = executes jobs

abbrev pub pending : List Fiber → List Job
pending [] = []
pending (f ∷ fs) = executes f.inbox ++ pending fs

append_swap : (xs ys zs : List Job) → Perm (xs ++ (ys ++ zs)) (ys ++ (xs ++ zs))
append_swap xs ys zs =
    subst (λ l. Perm l (ys ++ (xs ++ zs))) (append_assoc xs ys zs)
      (subst (Perm ((xs ++ ys) ++ zs)) (append_assoc ys xs zs)
        (Perm.append_right zs (perm_append_comm xs ys)))

-- One fiber changes: its messages are replaced.
pending-set :
    (fs : List Fiber) (i : ℕ) (f f' : Fiber)
    → get_elem? fs i ≡ some f
    → Perm (executes f.inbox ++ pending (set fs i f')) (executes f'.inbox ++ pending fs)
pending-set [] i f f' at = cc at
pending-set (x ∷ xs) zero f f' at =
    subst
      (λ (y : Fiber).
        Perm (executes y.inbox ++ (executes f'.inbox ++ pending xs))
          (executes f'.inbox ++ (executes x.inbox ++ pending xs)))
      (Option.some_inj.0 at) (append_swap (executes x.inbox) (executes f'.inbox) (pending xs))
pending-set (x ∷ xs) (suc i) f f' at =
    Perm.trans (append_swap (executes f.inbox) (executes x.inbox) (pending (set xs i f'))) (
      Perm.trans (Perm.append_left (executes x.inbox) (pending-set xs i f f' at))
        (append_swap (executes x.inbox) (executes f'.inbox) (pending xs)))

-- With messages known.
pending-replaced :
    (fs : List Fiber) (i : ℕ) (f f' : Fiber) (old new : List Job)
    → get_elem? fs i ≡ some f
    → executes f.inbox ≡ old
    → executes f'.inbox ≡ new
    → Perm (old ++ pending (set fs i f')) (new ++ pending fs)
pending-replaced fs i f f' old new at was now =
    subst (λ l. Perm (l ++ pending (set fs i f')) (new ++ pending fs)) was
      (subst (λ l. Perm (executes f.inbox ++ pending (set fs i f')) (l ++ pending fs)) now
        (pending-set fs i f f' at))

pending-snoc :
    (fs : List Fiber) (f : Fiber) → pending (fs ++ (f ∷ [])) ≡ pending fs ++ executes f.inbox
pending-snoc [] f = append-nil (executes f.inbox)
pending-snoc (x ∷ xs) f =
    ap (λ l. executes x.inbox ++ l) (pending-snoc xs f)
    ∙ sym (append_assoc (executes x.inbox) (pending xs) (executes f.inbox))

received_jobs :
    (f f' : Fiber)
    → receive f ≡ some f'
    → IsTidy f.inbox f.phase
    → (executes f.inbox ≡ starts f.inbox) × (executes f'.inbox ≡ [])
unfolding receive take
received_jobs f f' h t = go f.inbox f.phase h t
  where
    go :
        (inbox : List Job) (phase : Phase)
        → receive (record { inbox = inbox; phase = phase }) ≡ some f'
        → IsTidy inbox phase
        → (executes inbox ≡ starts inbox) × (executes f'.inbox ≡ [])
    go [] Phase.receiving e t = cc e
    go (execute hdr chan req_ready ∷ rest) Phase.receiving e t =
        let none_left = ap executes (few-nil (execute hdr chan req_ready) rest t) in
        (
          ap (λ l. execute hdr chan req_ready ∷ l) none_left,
          subst (λ (x : Fiber). executes x.inbox ≡ []) (Option.some_inj.0 e) none_left,
        )
    go (shutdown ∷ rest) Phase.receiving e t =
        let none_left = ap executes (few-nil shutdown rest t) in
        (none_left, subst (λ (x : Fiber). executes x.inbox ≡ []) (Option.some_inj.0 e) none_left)
    go inbox (Phase.running job) e t = cc e
    go inbox Phase.ended e t = cc e

-- A move starts the jobs that it takes out of channels, and no other.
Move-pending :
    {s s' : Fibers} {jobs : List Job}
    → Move s jobs s'
    → IsPool s
    → Perm (jobs ++ pending s'.fibers) (pending s.fibers)
unfolding job_done job_panicked
Move-pending {s} (received i f f' at got) p =
    let (was, now) = received_jobs f f' got (p.tidy i f at) in
    pending-replaced s.fibers i f f' (starts f.inbox) [] at was now
Move-pending {s} (done i f job at runs) p =
    let empty = ap executes (subst (IsTidy f.inbox) runs (p.tidy i f at)) in
    pending-replaced s.fibers i f (record f { phase = Phase.receiving }) [] [] at empty empty
Move-pending {s} (panicked i f job at runs) p =
    let empty = ap executes (subst (IsTidy f.inbox) runs (p.tidy i f at)) in
    pending-replaced s.fibers i f (record f { phase = Phase.ended }) [] [] at empty empty
Move-pending {s} (swept s' shuts) p =
    let (tx, txs, at, eq) = swept-message s s' p shuts in
    subst (λ (x : Fibers). Perm (pending x.fibers) (pending s.fibers)) (sym eq)
      (pending-replaced s.fibers tx idle_fiber (new_fiber shutdown) [] []
        (pooled-idle s tx txs p at) refl refl)

module _ (job : Job) (one : executes (job ∷ []) ≡ job ∷ []) where
  dispatch-pending :
      (s : Fibers) → IsPool s → Perm (pending (dispatch job s).fibers) (job ∷ pending s.fibers)
  dispatch-pending s p = elim (dispatched job s p) [
    | inl (tx, txs, at, eq) ↦
        subst (λ (x : Fibers). Perm (pending x.fibers) (job ∷ pending s.fibers)) (sym eq)
          (pending-replaced s.fibers tx idle_fiber (new_fiber job) [] (job ∷ [])
            (pooled-idle s tx txs p at) refl one)
    | inr (empty, eq) ↦
        subst (λ (x : Fibers). Perm (pending x.fibers) (job ∷ pending s.fibers)) (sym eq)
          (subst (λ l. Perm l (job ∷ pending s.fibers))
            (sym (pending-snoc s.fibers (new_fiber job) ∙ ap (λ l. pending s.fibers ++ l) one))
            (perm_append_singleton job (pending s.fibers)))
  ]

-- Every job that the worker hands over is started once or waits in the channel of a fiber: the jobs handed
-- over are those started and those that wait, up to their order.
pub jobs_start_once :
    {given begun : List Job} {s : Fibers}
    → Reach given begun s
    → Perm given (begun ++ pending s.fibers)
jobs_start_once start = Perm.refl []
jobs_start_once (hand {given} {begun} {s} hdr chan req_ready r) =
    let job = execute hdr chan req_ready in
    Perm.trans (Perm.cons job (jobs_start_once r)) (
      Perm.trans (Perm.symm (perm_middle begun (pending s.fibers)))
        (Perm.append_left begun (Perm.symm (dispatch-pending job refl s (Reach-IsPool r)))))
jobs_start_once (move {given} {begun} {jobs} {s} {s'} r m) = Perm.trans (jobs_start_once r) (
    Perm.trans (Perm.append_left begun (Perm.symm (Move-pending m (Reach-IsPool r)))) (
      subst (Perm (begun ++ (jobs ++ pending s'.fibers)))
        (sym (append_assoc jobs begun (pending s'.fibers)))
        (append_swap begun jobs (pending s'.fibers))))
