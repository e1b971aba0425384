-- ===== src/System/Log/Runs.antt =====
-- src/runtime/runtime.rs and src/trust/remote.rs together: posted calls run once each, in the order of each client.
use trust_tee.Prelude.{
  ◌≤◌, ◌-◌, ℕ, ◌≡◌, refl, sym, ap, ◌∙◌, inl, inr, same, same_self, ◌^◌, ◌<◌, List, [], ◌∷◌, ◌++◌,
  Option, none, some, length, get_elem?, if◌then◌else◌, arith,
}
use trust_tee.Memory.{Repr}
use trust_tee.Slots.{ChannelPair, PropertyPtr, slot_bytes, header_bytes, ready, pack_ready_count}
use trust_tee.Slots.Words.{ready-pack}
use trust_tee.Closures.{returned, VTables}
use trust_tee.Serialization.{vtable_gen}
use trust_tee.Runtime.Records.{respond}
use trust_tee.Runtime.Visit.Serve.{visit-call_mut_out}
use trust_tee.Runtime.Worker.{Seat}
use trust_tee.Remote.Client.{Closure, Request, write_result}
use trust_tee.Remote.Post.{
  InSlot, posted, posted-Requested, posted-property, posted-decode, record_header, IsPlaced,
}
use trust_tee.System.{System, seats}
use trust_tee.System.Log.{Log, calls_of, run_log, Holds, Calls, SeatAt}
use trust_tee.System.Log.Kept.{Calls-Logged}

-- One for a client whose request has not been answered.
abbrev pub unanswered : Option Seat → ℕ
unanswered none = 0
unanswered (some a) =
    if same (ready a.chan.request_flags) (ready a.chan.response_flags) then 0 else 1

module _ {T : Type 0} (vtables : VTables T) (repr : Repr T) where
  behind :
      (posts log : Log T) (i : ℕ) (o : Option Seat)
      → SeatAt vtables repr posts log i o
      → (waiting : List (T → T)) × (calls_of i posts ≡ waiting ++ calls_of i log)
        × (length waiting ≡ unanswered o)
  behind posts log i none (p, q) = ([], p ∙ sym q, refl)
  behind posts log i (some a) (free, inl (answered, e)) =
      ([], e, sym (ap (λ b. if b then 0 else 1) answered))
  behind posts log i (some a) (free, inr (g, asked, holds, e)) =
      (g ∷ [], e, sym (ap (λ b. if b then 0 else 1) asked))

  -- While clients post calls whose closures return, register with channels that hold no request, and no thread
  -- of the trustee uses the property itself: in every state that is reached there is one order of the
  -- calls that have run, such that the property is what they make of the first value in this order;
  -- and of each client the calls in it are all that it posted, in the order in which it posted them,
  -- but for the last one if its request has not been answered.
  pub calls_run_once :
      {value : T} {base : ℕ} {s : System T} {posts : Log T}
      → Calls vtables repr value base s posts
      → (log : Log T) × (s.worker.prop ≡ run_log log value)
        × ((i : ℕ)
            → (waiting : List (T → T)) × (calls_of i posts ≡ waiting ++ calls_of i log)
              × (length waiting ≡ unanswered (get_elem? (seats s.worker) i)))
  calls_run_once {posts = posts} cs =
      let (log, l) = Calls-Logged vtables repr cs in
      (log, l.ran, λ i. behind posts log i _ (l.at i))

  none_waits :
      (posts log : Log T) (i n : ℕ) (waiting : List (T → T))
      → calls_of i posts ≡ waiting ++ calls_of i log
      → length waiting ≡ n
      → n ≡ 0
      → calls_of i posts ≡ calls_of i log
  none_waits posts log i n [] e h z = e
  none_waits posts log i n (g ∷ gs) e h z = absurd (omega arith)

  -- Then, when all requests have been answered, all calls have run.
  pub all_answered :
      {value : T} {base : ℕ} {s : System T} {posts : Log T}
      → Calls vtables repr value base s posts
      → ((i : ℕ) → unanswered (get_elem? (seats s.worker) i) ≡ 0)
      → (log : Log T) × (s.worker.prop ≡ run_log log value)
        × ((i : ℕ) → calls_of i posts ≡ calls_of i log)
  all_answered {posts = posts} cs answered =
      let (log, ran, each) = calls_run_once cs in
      (log, ran, λ i. none_waits posts log i _ (each i).0 (each i).1 (each i).2 (answered i))

  -- What `apply` and `with` post holds their closure, if that returns and its result fits the response slot.
  pub posted-Holds :
      {F R : Type 0} (k : Closure F T R) (q : Request F) (c : ChannelPair) (e : InSlot q c)
      (g : T → T) (r : T → R)
      → q.property ≡ PropertyPtr.call_mut_out_ptr
      → k.result.size ≤ slot_bytes - header_bytes
      → IsPlaced c q.vtable
      → q.repeat < 2 ^ 32
      → vtables.call_mut_out q.vtable ≡ vtable_gen q.repr (λ f t. write_result k.result (k.run f t))
      → ((t : T) → k.run q.value t ≡ returned (g t) (r t))
      → Holds vtables repr (posted q c e) g
  unfolding respond write_result
  posted-Holds k q c e g r tag small placed few compiled returns = record {
    runs = λ cp t jobs free. (
      record (respond (posted q c e) (k.result.encode (r t))) {
        response_flags = pack_ready_count (ready (posted q c e).request_flags) 1;
      },
      visit-call_mut_out vtables repr
          (record { client = cp; chan = posted q c e; prop = t; jobs = jobs }) (record_header q c e)
          (posted-Requested q c e cp t jobs (inl free) placed few) (posted-property q c e ∙ tag)
          (posted-decode q c e vtables.call_mut_out (λ f u. write_result k.result (k.run f u)) t
              compiled
            ∙ ap (write_result k.result) (returns t)),
      ap (same (ready (posted q c e).request_flags))
            (ready-pack (ready (posted q c e).request_flags) 1)
          ∙ same_self (ready (posted q c e).request_flags),
    );
  }
