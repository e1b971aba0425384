-- ===== src/Runtime/Handles/Owners/Last.antt =====
-- src/runtime/runtime.rs and src/trust/remote.rs: the count of the handles, and when the runtime is dropped.
use mathlib.Core.Option
use trust_tee.Prelude.{◌≡◌, true, not, List, [], ◌∷◌, length, if◌then◌else◌}
use trust_tee.Runtime.Worker.{Seat}
use trust_tee.Runtime.Handles.{Handle}
use trust_tee.Runtime.Handles.Owners.{Owners, asking, is_registered, is_empty}

-- Of every handle.
abbrev pub AllRegistered : List Handle → List Seat → Type 0
AllRegistered [] reg = Unit {0}
AllRegistered (h ∷ hs) reg = (is_registered h.chan reg ≡ true) × AllRegistered hs reg

-- The handles all hold the runtime.
abbrev pub AllOwn : List Handle → Type 0
AllOwn [] = Unit {0}
AllOwn (h ∷ hs) = (h.owner ≡ true) × AllOwn hs

pub record IsOwned (o : Owners) : Type 0 where
  pub own : AllOwn o.handles
  pub counted : o.count ≡ length o.handles
  pub asked : asking o.runtime.registrar.reg ≡ (if is_empty o.handles then 1 else 0)
  pub alive : o.runtime.worker ≡ not (is_empty o.handles)
  pub registered : AllRegistered o.handles o.runtime.registrar.reg
