-- ===== src/Runtime/Records/Jobs.antt =====
-- src/runtime/runtime.rs: the record loop and the list of jobs. A map of that list that keeps the jobs of the
-- channel under work stands for what the client of that channel sees of it.
use trust_tee.Prelude.{
  ℕ, zero, suc, ◌+◌, ◌≡◌, refl, sym, ap, ◌∙◌, subst, ◌⊎◌, inl, inr, Bool, true, List, ◌∷◌, Option,
  none, some,
}
use trust_tee.Memory.{Repr}
use trust_tee.Slots.{
  PropertyPtr, RequestRecordHeader, record_size, record_align, next_boundary_offset,
}
use trust_tee.Closures.{Ran, returned, panicked, VTables}
use trust_tee.Runtime.Records.{
  ClientPair, Job, execute, Batch, Flow, continues, returns, unwinds, invalid, after_unit,
  after_out, respond, execute_record, read_and_execute, process_record, proceed, process_records,
}

module _ {T : Type 0} where
  abbrev pub on_batch : (List Job → List Job) → Batch T → Batch T
  on_batch φ b = record b { jobs = φ b.jobs }

  abbrev pub on_flow : (List Job → List Job) → Flow T → Flow T
  on_flow φ (continues b) = continues (on_batch φ b)
  on_flow φ (returns b) = returns (on_batch φ b)
  on_flow φ (unwinds b) = unwinds (on_batch φ b)
  on_flow φ (invalid b) = invalid (on_batch φ b)

  abbrev pub flow_batch : Flow T → Batch T
  flow_batch (continues b) = b
  flow_batch (returns b) = b
  flow_batch (unwinds b) = b
  flow_batch (invalid b) = b

-- The map keeps the jobs of the channel `chan`.
abbrev pub Keeps : (List Job → List Job) → ℕ → Type 0
Keeps φ chan =
    (hdr : RequestRecordHeader) (req_ready : Bool) (js : List Job)
    → φ (execute hdr chan req_ready ∷ js) ≡ execute hdr chan req_ready ∷ φ js

module _ {T : Type 0} where
  -- What a launch leaves.
  abbrev pub launched_batch : RequestRecordHeader → Bool → Batch T → Batch T
  launched_batch hdr req_ready b = record b {
    deferred_response = true;
    client = record b.client { pending_launch = true; launch_req_ready = req_ready };
    jobs = execute hdr b.client.chan req_ready ∷ b.jobs;
  }

  -- Any other work on a record.
  pub record IsPlain (b b' : Batch T) : Type 0 where
    pub same_client : b'.client ≡ b.client
    pub same_jobs : b'.jobs ≡ b.jobs
    pub same_request : b'.chan.request_flags ≡ b.chan.request_flags

  abbrev pub Executed : Bool → Batch T → Flow T → Type 0
  Executed req_ready b f =
      IsPlain b (flow_batch f)
      ⊎ ((hdr : RequestRecordHeader) × (f ≡ continues (launched_batch hdr req_ready b)))

  plain : {b : Batch T} → IsPlain b b
  plain = record { same_client = refl; same_jobs = refl; same_request = refl }

  after_unit-IsPlain :
      (b : Batch T) (ran : Ran T (Unit {0})) → IsPlain b (flow_batch (after_unit b ran))
  unfolding after_unit
  after_unit-IsPlain b (returned t _) = record {
    same_client = refl;
    same_jobs = refl;
    same_request = refl;
  }
  after_unit-IsPlain b (panicked t) = record {
    same_client = refl;
    same_jobs = refl;
    same_request = refl;
  }

  after_out-IsPlain :
      (b : Batch T) (ran : Ran T (List ℕ)) → IsPlain b (flow_batch (after_out b ran))
  unfolding after_out respond
  after_out-IsPlain b (returned t out) = record {
    same_client = refl;
    same_jobs = refl;
    same_request = refl;
  }
  after_out-IsPlain b (panicked t) = record {
    same_client = refl;
    same_jobs = refl;
    same_request = refl;
  }

  after_unit-on :
      (φ : List Job → List Job) (b : Batch T) (ran : Ran T (Unit {0}))
      → after_unit (on_batch φ b) ran ≡ on_flow φ (after_unit b ran)
  unfolding after_unit
  after_unit-on φ b (returned t _) = refl
  after_unit-on φ b (panicked t) = refl

  after_out-on :
      (φ : List Job → List Job) (b : Batch T) (ran : Ran T (List ℕ))
      → after_out (on_batch φ b) ran ≡ on_flow φ (after_out b ran)
  unfolding after_out
  after_out-on φ b (returned t out) = refl
  after_out-on φ b (panicked t) = refl

module _ {T : Type 0} (vtables : VTables T) (repr : Repr T) (req_ready : Bool) where
  execute-Executed :
      (q : PropertyPtr) (hdr : RequestRecordHeader) (b : Batch T)
      → Executed req_ready b (execute_record vtables repr q hdr req_ready b)
  unfolding execute_record respond
  execute-Executed PropertyPtr.call_mut_ret_unit hdr b = inl (after_unit-IsPlain b _)
  execute-Executed PropertyPtr.call_mut_out_ptr hdr b = inl (after_out-IsPlain b _)
  execute-Executed PropertyPtr.call_mut_args_out_ptr hdr b = inl (after_out-IsPlain b _)
  execute-Executed PropertyPtr.into_inner hdr b =
      inl (record { same_client = refl; same_jobs = refl; same_request = refl })
  execute-Executed PropertyPtr.launch hdr b = inr (hdr, refl)
  execute-Executed PropertyPtr.terminate hdr b =
      inl (record { same_client = refl; same_jobs = refl; same_request = refl })

  execute-on :
      (φ : List Job → List Job) (q : PropertyPtr) (hdr : RequestRecordHeader) (b : Batch T)
      → Keeps φ b.client.chan
      → execute_record vtables repr q hdr req_ready (on_batch φ b)
        ≡ on_flow φ (execute_record vtables repr q hdr req_ready b)
  unfolding execute_record respond
  execute-on φ PropertyPtr.call_mut_ret_unit hdr b keeps = after_unit-on φ b _
  execute-on φ PropertyPtr.call_mut_out_ptr hdr b keeps = after_out-on φ b _
  execute-on φ PropertyPtr.call_mut_args_out_ptr hdr b keeps = after_out-on φ b _
  execute-on φ PropertyPtr.into_inner hdr b keeps = refl
  execute-on φ PropertyPtr.launch hdr b keeps =
      ap (λ js. continues (record (launched_batch hdr req_ready b) { jobs = js }))
        (sym (keeps hdr req_ready b.jobs))
  execute-on φ PropertyPtr.terminate hdr b keeps = refl

  abbrev pub at_cursor : Batch T → Batch T
  at_cursor b = record b {
    header_cursor = next_boundary_offset b.header_cursor record_size record_align;
  }

  read-Executed :
      (o : Option RequestRecordHeader) (b : Batch T)
      → Executed req_ready b (read_and_execute vtables repr o req_ready b)
  unfolding read_and_execute
  read-Executed none b = inl plain
  read-Executed (some hdr) b = execute-Executed hdr.property_ptr hdr b

  read-on :
      (φ : List Job → List Job) (o : Option RequestRecordHeader) (b : Batch T)
      → Keeps φ b.client.chan
      → read_and_execute vtables repr o req_ready (on_batch φ b)
        ≡ on_flow φ (read_and_execute vtables repr o req_ready b)
  unfolding read_and_execute
  read-on φ none b keeps = refl
  read-on φ (some hdr) b keeps = execute-on φ hdr.property_ptr hdr b keeps

  -- One record.
  pub process_record-Executed :
      (b : Batch T) → Executed req_ready (at_cursor b) (process_record vtables repr req_ready b)
  unfolding process_record
  process_record-Executed b = read-Executed _ (at_cursor b)

  process_record-on :
      (φ : List Job → List Job) (b : Batch T)
      → Keeps φ b.client.chan
      → process_record vtables repr req_ready (on_batch φ b)
        ≡ on_flow φ (process_record vtables repr req_ready b)
  unfolding process_record
  process_record-on φ b keeps = read-on φ _ (at_cursor b) keeps

  Executed-chan :
      (b : Batch T) (f : Flow T)
      → Executed req_ready b f
      → (flow_batch f).client.chan ≡ b.client.chan
  Executed-chan b f (inl p) = ap (λ (c : ClientPair). c.chan) p.same_client
  Executed-chan b f (inr (hdr, e)) = ap (λ g. (flow_batch g).client.chan) e

  -- The loop over the records.
  pub process_records-on :
      (φ : List Job → List Job) (n : ℕ) (b : Batch T)
      → Keeps φ b.client.chan
      → process_records vtables repr req_ready n (on_batch φ b)
        ≡ on_flow φ (process_records vtables repr req_ready n b)
  unfolding process_records
  process_records-on φ zero b keeps = refl
  process_records-on φ (suc n) b keeps =
      ap (proceed (process_records vtables repr req_ready n)) (process_record-on φ b keeps)
      ∙ go (λ b' k. process_records-on φ n b' k) (process_record vtables repr req_ready b)
          (subst (Keeps φ) (sym (Executed-chan (at_cursor b) _ (process_record-Executed b))) keeps)
    where
      go :
          ((b' : Batch T)
            → Keeps φ b'.client.chan
            → process_records vtables repr req_ready n (on_batch φ b')
              ≡ on_flow φ (process_records vtables repr req_ready n b'))
          → (f : Flow T) → Keeps φ (flow_batch f).client.chan
          → proceed (process_records vtables repr req_ready n) (on_flow φ f)
            ≡ on_flow φ (proceed (process_records vtables repr req_ready n) f)
      go ih (continues b') k =
          ih
            (record b' {
              header_cursor = b'.header_cursor + record_size;
              processed = b'.processed + 1;
            })
            k
      go ih (returns b') k = refl
      go ih (unwinds b') k = refl
      go ih (invalid b') k = refl
