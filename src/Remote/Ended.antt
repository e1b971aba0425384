-- ===== src/Remote/Ended.antt =====
-- src/trust/remote.rs: a client whose worker has left its loop, for a panic or for an `into_inner` of another
-- client.
use mathlib.Core.Option
use trust_tee.Prelude.{
  ℕ, ◌+◌, ◌≡◌, refl, sym, ap, ◌∙◌, subst, Bool, true, false, not, same, same-not, List, [], Option,
  none, some, if◌then◌else◌,
}
use trust_tee.Memory.{Memory, Repr, unit_repr}
use trust_tee.Bincode.{Bincode}
use trust_tee.Outcome.{Outcome, Panic, ok, panic, ◌>>=◌}
use trust_tee.Slots.{RequestRecordHeader, ChannelPair, ready, pack_ready_count, write_record}
use trust_tee.Serialization.{SlotWriter, encode_closure}
use trust_tee.Closures.{VTables}
use trust_tee.Channel.{Link, Event}
use trust_tee.Channel.Await.{await-Stuck}
use trust_tee.Remote.Client.{
  Thread, Remote, Closure, ArgClosure, Request, hdr_offset, payload_writer, on_trustee, expect,
  post, await_result, delegate,
}
use trust_tee.Remote.Operations.{
  apply, with, apply_then, apply_with, apply_batch_mut, into_inner, launch, launch_then,
}

-- The operation has panicked, or its caller still waits.
abbrev pub NoResult : {A : Type 0} → Outcome (Option A) → Type 0
NoResult (ok none) = Unit {0}
NoResult (ok (some a)) = ⊥
NoResult (panic p) = Unit {0}

module _ {T : Type 0} (vtables : VTables T) (repr : Repr T) (events : List (Event T)) (l : Link T)
    (ended : l.running ≡ false) (no_job : l.port.jobs ≡ []) where
  waits :
      {R : Type 0} (result : Repr R) (c : ChannelPair)
      → c.response_flags ≡ l.port.chan.response_flags
      → await_result vtables repr events result l (not (ready l.port.chan.response_flags), c) ≡ none
  unfolding await_result
  waits result c same_response = ap (Option.map _) (
      await-Stuck vtables repr (not (ready l.port.chan.response_flags)) events
        (record l { port = record l.port { chan = c } })
        (record {
          gone = ended;
          no_job = no_job;
          unanswered =
              ap (λ r. same (ready r) (not (ready l.port.chan.response_flags))) same_response
              ∙ same-not (ready l.port.chan.response_flags);
        }))

  delegated :
      {F R : Type 0} (q : Request F) (result : Repr R)
      → NoResult (delegate vtables repr events q result l)
  unfolding delegate post
  delegated q result = go (
      encode_closure (payload_writer l.port.chan) q.property q.repr q.vtable q.value q.args
        l.port.chan.bytes)
    where
      stored_post : RequestRecordHeader → Memory → Bool × ChannelPair
      stored_post hdr m = (
        not (ready l.port.chan.response_flags),
        record l.port.chan {
          bytes =
              write_record (l.port.chan.base + hdr_offset) (record hdr { repeat_count = q.repeat })
                m;
          request_flags = pack_ready_count (not (ready l.port.chan.response_flags)) 1;
        },
      )

      go :
          (o : Outcome (RequestRecordHeader × SlotWriter × Memory))
          → NoResult (
              (o >>= (λ x. ok (stored_post x.0 x.2)))
              >>= (λ p. ok (await_result vtables repr events result l p)))
      go (ok (hdr, w, m)) =
          subst (λ o. NoResult (ok o)) (sym (waits result (stored_post hdr m).1 refl)) tt
      go (panic p) = tt

  refused_or_waits :
      {A : Type 0} (b : Bool) (p : Panic) (o : Outcome (Option A))
      → NoResult o
      → NoResult (if b then panic p else o)
  refused_or_waits true p o h = tt
  refused_or_waits false p o h = h

  continued-NoResult :
      {R E : Type 0} (next : R × Link T → E × Link T) (o : Outcome (Option (R × Link T)))
      → NoResult o
      → NoResult (o >>= (λ x. ok (Option.map next x)))
  continued-NoResult next (ok none) h = tt
  continued-NoResult next (ok (some x)) h = h
  continued-NoResult next (panic p) h = tt

  owned_or_refused :
      {A : Type 0} (b : Bool) (p : Panic) (o : Outcome (Option A))
      → NoResult o
      → NoResult (if b then o else panic p)
  owned_or_refused true p o h = h
  owned_or_refused false p o h = tt

  expect-NoResult :
      {A B : Type 0} (o : Option B) (p : Panic) (next : B → Outcome (Option A))
      → ((b : B) → NoResult (next b))
      → NoResult (expect o p >>= next)
  unfolding expect
  expect-NoResult none p next h = tt
  expect-NoResult (some b) p next h = h b

  apply-NoResult :
      {F R : Type 0} (k : Closure F T R) (f : F) (thread : Thread) (remote : Remote)
      → on_trustee thread remote ≡ false
      → NoResult (apply vtables repr events k f thread remote l)
  unfolding apply
  apply-NoResult k f thread remote away =
      rw away (refused_or_waits thread.is_trustee _ _ (delegated _ k.result))

  module _ {F V R : Type 0} (k : Closure F T R) (f : F) (bincode : Bincode V)
      (ka : ArgClosure F V T R) (w : V) (ku : Closure F T (Unit {0})) (n : ℕ) (thread : Thread)
      (remote : Remote) (vtable : ℕ) where
    -- Once the worker has left its loop, and no job of this channel is left, no operation of a client away from
    -- the trustee's thread ever has a result, whatever happens while it waits: it panics before it posts, or
    -- it is never answered. It is not told that the worker has gone.
    pub ended_gives_nothing :
        {E : Type 0} (next : R → E)
        → on_trustee thread remote ≡ false
        → NoResult (apply vtables repr events k f thread remote l)
          × NoResult (with vtables repr events k f thread remote l)
          × NoResult (apply_then vtables repr events k f thread remote next l)
          × NoResult (apply_with vtables repr events bincode ka f thread remote w l)
          × NoResult (apply_batch_mut vtables repr events ku f thread remote n l)
          × NoResult (launch vtables repr events k f thread remote l)
          × NoResult (launch_then vtables repr events k f thread remote next l)
          × NoResult (into_inner vtables repr events vtable thread remote l)
    unfolding with apply_then apply_with apply_batch_mut launch launch_then into_inner
    ended_gives_nothing next away = (
      apply-NoResult k f thread remote away,
      rw away (delegated _ k.result),
      continued-NoResult _ _ (apply-NoResult k f thread remote away),
      rw away (
          refused_or_waits thread.is_trustee _ _
            (expect-NoResult (bincode.serialize w) _ _ (λ args. delegated _ ka.result))),
      rw away (refused_or_waits thread.is_trustee _ _ (delegated _ unit_repr)),
      delegated _ k.result,
      continued-NoResult _ _ (delegated _ k.result),
      refused_or_waits thread.is_trustee _ _ (owned_or_refused remote.owner _ _ (delegated _ repr)),
    )
