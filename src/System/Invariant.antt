-- ===== src/System/Invariant.antt =====
-- src/runtime/runtime.rs and src/trust/remote.rs: the channels of the clients and the jobs that answer on them.
pub mod Turns
pub mod Reached
use mathlib.Core.List.{append_assoc}
use trust_tee.Prelude.{
  ℕ, erase_idx, ◌≤◌, ◌≡◌, ◌≢◌, refl, sym, ap, ◌∙◌, subst, ◌⊎◌, inl, inr, Bool, false, not, same,
  not-same, List, [], ◌∷◌, ◌++◌, Option, none, some, length, get_elem?, get_elem?-set,
  get_elem?-snoc_cases, get_elem?-below, set, arith,
}
use trust_tee.Memory.{Repr}
use trust_tee.Slots.{RequestRecordHeader, ready, count, new_channel}
use trust_tee.Serialization.{decode_and_call}
use trust_tee.Closures.{VTables, Ran, returned, panicked}
use trust_tee.Runtime.Records.{ClientPair, Job, execute, shutdown, respond}
use trust_tee.Runtime.Visit.{
  Port, Visit, skipped, progressed, exited, died, undefined, visit, run_job, complete_job,
}
use trust_tee.Slots.Words.{ready-pack}
use trust_tee.Runtime.Visit.Serve.{Settled}
use trust_tee.Runtime.Visit.Pending.{visit-in_progress}
use trust_tee.Runtime.Visit.Jobs.{visit_port}
use trust_tee.Runtime.Visit.Single.{InProgress, Visited, visit-Visited}
use trust_tee.Runtime.Worker.{
  Seat, Worker, port_at, slot_index, after_visit, turn_at, turn, poll_registrations,
}
use trust_tee.Runtime.Worker.Registers.{poll_keeps, poll_same}
use trust_tee.Runtime.Handles.{client_seat, spawn, register}
use trust_tee.System.{
  System, seats, own, of_turn, job_port, put, Step, turned, polled, idled, fiber_ran, used,
  registered, Post, posted, Reach, spawned, step, post,
}
use trust_tee.System.Own.{
  own-Keeps, own-other, own-erase_other, own-found, own-erase_only, get_elem?-append, set-append,
  seats-set_seat,
}

-- A request of at most one record; and no job on the channel, or one, of a launch that is under way. The mark of
-- a launch stands behind a request that has been answered only if that was the launch.
pub record IsSettled (jobs : List Job) (a : Seat) : Type 0 where
  pub few : count a.chan.request_flags ≤ 1
  pub job :
      (own a.client.chan jobs ≡ [])
      ⊎ ((hdr : RequestRecordHeader) × (own a.client.chan jobs
            ≡ execute hdr a.client.chan a.client.launch_req_ready ∷ [])
          × InProgress a.client a.chan)
  pub past :
      (same (ready a.chan.request_flags) (ready a.chan.response_flags) ≡ false)
      ⊎ Settled a.client a.chan

pub record IsSystem (clients : List Seat) (jobs : List Job) : Type 0 where
  pub distinct :
      (i k : ℕ) (a b : Seat)
      → get_elem? clients i ≡ some a
      → get_elem? clients k ≡ some b
      → a.client.chan ≡ b.client.chan
      → i ≡ k
  pub settled : (i : ℕ) (a : Seat) → get_elem? clients i ≡ some a → IsSettled jobs a

pub IsSettled-jobs :
    (a : Seat) (jobs jobs' : List Job)
    → own a.client.chan jobs' ≡ own a.client.chan jobs
    → IsSettled jobs a
    → IsSettled jobs' a
IsSettled-jobs a jobs jobs' same_own s = record {
  few = s.few;
  job = elim s.job [
    | inl empty ↦ inl (same_own ∙ empty)
    | inr (hdr, one, at) ↦ inr (hdr, same_own ∙ one, at)
  ];
  past = s.past;
}

-- The place of one client changes, and with it the jobs on its channel.
pub IsSystem-set :
    (clients : List Seat) (jobs jobs' : List Job) (i : ℕ) (a a' : Seat)
    → IsSystem clients jobs
    → get_elem? clients i ≡ some a
    → a'.client.chan ≡ a.client.chan
    → IsSettled jobs' a'
    → ((d : ℕ) → a.client.chan ≢ d → own d jobs' ≡ own d jobs)
    → IsSystem (set clients i a') jobs'
IsSystem-set clients jobs jobs' i a a' s at same_chan fine others = record {
  distinct = λ k m b c hb hc e. elim (get_elem?-set clients i k a' b hb) [
    | inl (ik, b_new) ↦ elim (get_elem?-set clients i m a' c hc) [
      | inl (im, c_new) ↦ sym ik ∙ im
      | inr (im, c_old) ↦
          sym ik
          ∙ s.distinct i m a c at c_old
              (sym same_chan ∙ ap (λ (x : Seat). x.client.chan) (sym b_new) ∙ e)
    ]
    | inr (ik, b_old) ↦ elim (get_elem?-set clients i m a' c hc) [
      | inl (im, c_new) ↦
          s.distinct k i b a b_old at (e ∙ ap (λ (x : Seat). x.client.chan) c_new ∙ same_chan) ∙ im
      | inr (im, c_old) ↦ s.distinct k m b c b_old c_old e
    ]
  ];
  settled = λ k b hb. elim (get_elem?-set clients i k a' b hb) [
    | inl (ik, b_new) ↦ subst (IsSettled jobs') (sym b_new) fine
    | inr (ik, b_old) ↦
        IsSettled-jobs b jobs jobs' (others b.client.chan (λ e. ik (s.distinct i k a b at b_old e)))
          (s.settled k b b_old)
  ];
}

pub IsSystem-snoc :
    (clients : List Seat) (jobs : List Job) (a : Seat)
    → IsSystem clients jobs
    → ((i : ℕ) (b : Seat) → get_elem? clients i ≡ some b → b.client.chan ≢ a.client.chan)
    → IsSettled jobs a
    → IsSystem (clients ++ (a ∷ [])) jobs
IsSystem-snoc clients jobs a s fresh fine = record {
  distinct = λ k m b c hb hc e. elim (get_elem?-snoc_cases clients a k b hb) [
    | inl (b_new, k_last) ↦ elim (get_elem?-snoc_cases clients a m c hc) [
      | inl (c_new, m_last) ↦ k_last ∙ sym m_last
      | inr c_old ↦ absurd (fresh m c c_old (sym e ∙ ap (λ (x : Seat). x.client.chan) b_new))
    ]
    | inr b_old ↦ elim (get_elem?-snoc_cases clients a m c hc) [
      | inl (c_new, m_last) ↦ absurd (fresh k b b_old (e ∙ ap (λ (x : Seat). x.client.chan) c_new))
      | inr c_old ↦ s.distinct k m b c b_old c_old e
    ]
  ];
  settled = λ k b hb. elim (get_elem?-snoc_cases clients a k b hb) [
    | inl new ↦ subst (IsSettled jobs) (sym new.0) fine
    | inr old ↦ s.settled k b old
  ];
}

pub completed :
    {T : Type 0} (p : Port T) (req_ready : Bool) (ran : Ran T (List ℕ))
    → ((complete_job p req_ready ran).client ≡ p.client)
      × ((complete_job p req_ready ran).jobs ≡ p.jobs)
      × ((complete_job p req_ready ran).chan.request_flags ≡ p.chan.request_flags)
      × (ready (complete_job p req_ready ran).chan.response_flags ≡ req_ready)
unfolding complete_job respond
completed p req_ready (returned t out) = (refl, refl, refl, ready-pack req_ready 1)
completed p req_ready (panicked t) = (refl, refl, refl, ready-pack req_ready 1)

-- The ready bit that the completion guard of a job stores.
pub guard_bit : Job → Bool
guard_bit (execute hdr chan req_ready) = req_ready
guard_bit shutdown = false
