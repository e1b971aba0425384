-- ===== src/Runtime/Handles/Owners.antt =====
-- src/runtime/runtime.rs and src/trust/remote.rs: the handles that share the ownership of one runtime, and the
-- runtime that is dropped with the last of them. The queue of registrations is kept whole: what the
-- worker has taken up stays in it.
pub mod Last
use trust_tee.Prelude.{
  ℕ, zero, suc, ◌+◌, ◌-◌, ◌≤◌, ◌<◌, ◌≡◌, refl, sym, ap, ◌∙◌, subst, inl, inr, Bool, true, false,
  not, ◌||◌, same, same_self, not-same, Bool-cases, List, [], ◌∷◌, ◌++◌, Option, none, some, length,
  length-append, get_elem?, get_elem?-below, erase_idx, ◌==◌, ==_self, if◌then◌else◌, arith,
}
use trust_tee.Slots.{ChannelPair, new_channel, ready}
use trust_tee.Slots.Words.{ready-pack}
use trust_tee.Runtime.Worker.{Seat}
use trust_tee.Runtime.Handles.{
  Registrar, Runtime, Handle, client_seat, register, spawn, spawn_with_pin, clone, post_terminate,
  drop_runtime,
}

-- The runtime inside the `Arc` of `_owner`, its strong count, and the handles that hold it.
pub record Owners : Type 0 where
  pub runtime : Runtime
  pub count : ℕ
  pub handles : List Handle

-- `Remote::entrust`: the runtime of `spawn` goes into the `Arc` of the handle.
unfoldable pub owned : {T : Type 0} → T → ℕ → Owners
unfolding spawn
owned value base =
    let (worker, rt, handle) = spawn value base in
    record { runtime = rt; count = 1; handles = handle ∷ [] }

unfoldable pub clone_owned : Handle → ℕ → Owners → Owners
unfolding clone
clone_owned h base o =
    let (registrar, handle) = clone h base o.runtime.registrar in
    record {
      runtime = record o.runtime { registrar = registrar };
      count = o.count + (if h.owner then 1 else 0);
      handles = o.handles ++ (handle ∷ []);
    }

-- The `_owner` of the handle at a place.
unfoldable pub owner_at : List Handle → ℕ → Bool
owner_at [] i = false
owner_at (h ∷ hs) zero = h.owner
owner_at (h ∷ hs) (suc i) = owner_at hs i

-- The drop of the handle at a place; that of the last one that owns the runtime drops the runtime.
unfoldable pub drop_owned : ℕ → ℕ → Owners → Owners
unfolding drop_runtime owner_at
drop_owned i base o =
    if owner_at o.handles i
    then record {
      runtime = if o.count == 1 then drop_runtime base o.runtime else o.runtime;
      count = o.count - 1;
      handles = erase_idx o.handles i;
    }
    else record o { handles = erase_idx o.handles i }

-- The handles that come from one `Remote::entrust`.
pub data Owned {T : Type 0} (value : T) : Owners → Type 0 where
  entrusted : (base : ℕ) → Owned value (owned value base)
  cloned :
      {o : Owners} (i base : ℕ) (h : Handle)
      → Owned value o
      → get_elem? o.handles i ≡ some h
      → Owned value (clone_owned h base o)
  dropped :
      {o : Owners} (i base : ℕ) (h : Handle)
      → Owned value o
      → get_elem? o.handles i ≡ some h
      → Owned value (drop_owned i base o)

-- The channel was registered with a request on it.
abbrev pub asks : Seat → Bool
asks a = not (same (ready a.chan.request_flags) (ready a.chan.response_flags))

abbrev pub asking : List Seat → ℕ
asking [] = 0
asking (a ∷ reg) = if asks a then suc (asking reg) else asking reg

abbrev pub is_registered : ℕ → List Seat → Bool
is_registered chan [] = false
is_registered chan (a ∷ reg) = a.client.chan == chan || is_registered chan reg

abbrev pub is_empty : List Handle → Bool
is_empty [] = true
is_empty (h ∷ hs) = false
