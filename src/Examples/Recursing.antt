-- ===== src/Examples/Recursing.antt =====
-- A closure on the worker's thread that increments the property, and has it incremented by another one.
use trust_tee.Prelude.{
  ℕ, ◌≡◌, refl, sym, ap, ◌∙◌, inl, true, false, [], ◌∷◌, Option, none, some, arith,
}
use trust_tee.Memory.{unit_repr}
use trust_tee.Outcome.{Outcome, ok, panic}
use trust_tee.Serialization.{vtable_gen}
use trust_tee.Closures.{Ran, returned, panicked, VTables}
use trust_tee.Channel.{Link, serve, first_served}
use trust_tee.Remote.Client.{Closure, on_trustee, write_result}
use trust_tee.Remote.Operations.{apply}
use trust_tee.Remote.Delegate.{observed}
use trust_tee.Programs.Recursion.{add_one, with_prop, recursive, recursive_lem}
use trust_tee.Programs.Recursion.Delegated.{recursive_apply_lem}
use trust_tee.Examples.Codes.{number, repr_of}
use trust_tee.Examples.Data.{channel, client_thread, trustee_thread, remote}
use trust_tee.Examples.Delegation.{away}

abbrev inner : Closure (Unit {0}) ℕ (Unit {0})
inner = record { repr = unit_repr; result = unit_repr; vtable = 16; run = add_one true }

abbrev shared : Link ℕ
shared = record {
  port = record {
    client = record { chan = 4096; pending_launch = false; launch_req_ready = false };
    chan = channel;
    prop = 0;
    jobs = [];
  };
  running = true;
}

-- The calls of the closures that run on the worker use no vtable.
abbrev no_vtables : VTables ℕ
no_vtables = record {
  call_mut = λ a. vtable_gen unit_repr (λ f t. panicked t);
  call_mut_out = λ a. vtable_gen unit_repr (λ f t. panicked t);
  call_mut_args_out = λ a. vtable_gen unit_repr (λ f t. panicked t.0);
}

abbrev as_ran : ℕ → Outcome (Option (ℕ × Link ℕ)) → Ran ℕ ℕ
as_ran t (ok none) = panicked t
as_ran t (ok (some (v, l))) = returned l.port.prop v
as_ran t (panic p) = panicked t

recursive_at : VTables ℕ → ℕ → Outcome (Option (ℕ × Link ℕ))
recursive_at vtables t =
    recursive vtables (repr_of number) [] trustee_thread remote inner true (with_prop shared t)

outer : Closure (Unit {0}) ℕ ℕ
outer = record {
  repr = unit_repr;
  result = repr_of number;
  vtable = 32;
  run = λ f t. as_ran t (recursive_at no_vtables t);
}

abbrev vtables : VTables ℕ
vtables = record no_vtables {
  call_mut_out = λ a. vtable_gen outer.repr (λ f t. write_result outer.result (outer.run f t));
}

here : on_trustee trustee_thread remote ≡ true
unfolding on_trustee
here = refl

agree : recursive_at no_vtables 0 ≡ recursive_at vtables 0
unfolding recursive_at
agree =
    recursive_lem no_vtables (repr_of number) [] trustee_thread remote inner true here (λ u. refl)
      (with_prop shared 0) (omega arith)
    ∙ sym (
        recursive_lem vtables (repr_of number) [] trustee_thread remote inner true here (λ u. refl)
          (with_prop shared 0) (omega arith))

recursive_apply_lem_example :
    observed (apply vtables (repr_of number) (serve ∷ []) outer tt client_thread remote shared)
    ≡ ok (some (2, 2))
unfolding outer recursive_at first_served
recursive_apply_lem_example =
    recursive_apply_lem vtables (repr_of number) (serve ∷ []) [] trustee_thread client_thread remote
      inner outer tt shared shared true 0 here (λ u. refl) (λ v l' e. ap (as_ran 0) (agree ∙ e))
      away refl
      (record {
        aligned = omega arith;
        small = omega arith;
        result_small = omega arith;
        placed = record { slots = omega arith; static = omega arith };
        compiled = refl;
      })
      (record { running = refl; settled = inl refl; no_jobs = refl }) refl (omega arith)
