-- ===== src/Remote/Guards.antt =====
-- src/trust/remote.rs: the shortcut of the operations.
use trust_tee.Prelude.{ℕ, ◌≡◌, true, List}
use trust_tee.Memory.{Repr}
use trust_tee.Bincode.{Bincode}
use trust_tee.Closures.{VTables}
use trust_tee.Channel.{Link, Event}
use trust_tee.Remote.Client.{Thread, Remote, Closure, ArgClosure, on_trustee, run_repeated, direct}
use trust_tee.Remote.Operations.{apply, with, apply_with, apply_batch_mut}

module _ {T : Type 0} (vtables : VTables T) (repr : Repr T) (events : List (Event T))
    (thread : Thread) (remote : Remote) (l : Link T) where
  module _ {F V R : Type 0} (k : Closure F T R) (f : F) (bincode : Bincode V)
      (ka : ArgClosure F V T R) (w : V) (ku : Closure F T (Unit {0})) (n : ℕ) where
    -- On the trustee's own thread, every operation but `into_inner` and `launch` runs the closure on
    -- the property at once: no request is posted and no event is awaited.
    pub shortcut :
        on_trustee thread remote ≡ true
        → (apply vtables repr events k f thread remote l ≡ direct l (k.run f l.port.prop))
          × (with vtables repr events k f thread remote l ≡ direct l (k.run f l.port.prop))
          × (apply_with vtables repr events bincode ka f thread remote w l
              ≡ direct l (ka.run f l.port.prop w))
          × (apply_batch_mut vtables repr events ku f thread remote n l
              ≡ direct l (run_repeated (ku.run f) n l.port.prop))
    unfolding apply with apply_with apply_batch_mut
    shortcut here = (rw here, rw here, rw here, rw here)
