-- ===== src/Closures.antt =====
-- What a closure of the user does to the property `T`, and static memory with the vtables that the
-- compiler generated: the `&mut T` and `*mut T` arguments are state that is passed and returned, the
-- bytes that a closure writes through its `out` pointer are a result.
use trust_tee.Prelude.{ℕ, List}
use trust_tee.Serialization.{ErasedVTable}

-- A closure returns, or panics having changed the property.
pub data Ran (T R : Type 0) : Type 0 where
  returned : T → R → Ran T R
  panicked : T → Ran T R

-- The vtables at each address, at the three types at which the trustee reads them.
pub record VTables (T : Type 0) : Type 0 where
  pub call_mut : ℕ → ErasedVTable T (Ran T (Unit {0}))
  pub call_mut_out : ℕ → ErasedVTable T (Ran T (List ℕ))
  pub call_mut_args_out : ℕ → ErasedVTable (T × List ℕ) (Ran T (List ℕ))
