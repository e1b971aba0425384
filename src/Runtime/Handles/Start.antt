-- ===== src/Runtime/Handles/Start.antt =====
-- src/runtime/runtime.rs: what the worker does before its loop, and what a caller then finds: its own number
-- and mark, and the trustee's number in the handle.
use native.Mathlib.Decide.{ℕ_discrete}
use trust_tee.Prelude.{
  ℕ, ◌+◌, ◌^◌, ◌<◌, ◌≡◌, refl, sym, subst, ap, ◌∙◌, Bool, true, false, not, ◌&&◌, ◌||◌, ◌==◌,
  ==_self, ne→==, List, [], ◌∷◌, some, length, arith,
}
use trust_tee.Util.ThreadId.{Ids, IsIds, get_thread_id, get_thread_id-Given, get_thread_id-again}
use trust_tee.Util.Fiber.{Marks, is_trustee_thread, enter, leave, set_mark}
use trust_tee.Runtime.Handles.{Registrar, spawn}
use trust_tee.Remote.Client.{Thread, Remote, on_trustee}

-- The start of the worker on thread `t`.
pub record Started : Type 0 where
  pub registrar : Registrar
  pub ids : Ids
  pub marks : Marks

unfoldable pub start_worker : ℕ → Registrar → Ids → Marks → Started
unfolding enter
start_worker t r ids marks =
    let (n, ids') = get_thread_id t ids in
    record {
      registrar = record r { trustee_id = n; trustee_prop = true };
      ids = ids';
      marks = enter t marks;
    }

-- What a caller on thread `u` reads.
unfoldable pub caller : ℕ → Ids → Marks → Thread
unfolding is_trustee_thread
caller u ids marks = record { id = (get_thread_id u ids).0; is_trustee = is_trustee_thread u marks }

unfoldable pub view : Registrar → Bool → Remote
view r owner = record { trustee_id = r.trustee_id; prop_published = r.trustee_prop; owner = owner }

-- Threads that ask for their numbers, one after the other.
unfoldable pub ask_all : List ℕ → Ids → Ids
ask_all [] s = s
ask_all (u ∷ us) s = ask_all us (get_thread_id u s).1

-- The number of the worker's thread, and that the numbers are those of threads.
record Published (t n : ℕ) (s : Ids) : Type 0 where
  is_ids : IsIds s
  given : s.thread_id t ≡ some n

ask_all-Published :
    (t n : ℕ) (us : List ℕ) (s : Ids)
    → Published t n s
    → s.thread_id_counter + length us + 2 < 2 ^ 64
    → Published t n (ask_all us s) × ((ask_all us s).thread_id_counter + 2 < 2 ^ 64)
unfolding ask_all
ask_all-Published t n [] s p room = (p, omega (arith, room))
ask_all-Published t n (u ∷ us) s p room =
    let g = get_thread_id-Given u s p.is_ids (omega (arith, room)) in
    ask_all-Published t n us (get_thread_id u s).1
      (record { is_ids = g.is_ids; given = g.kept t n p.given }) (omega (arith, room, g.grown))

-- A caller has the published number just if it is on the thread of the worker.
number_of_caller :
    (t n u : ℕ) (s : Ids)
    → Published t n s
    → s.thread_id_counter + 2 < 2 ^ 64
    → (n == (get_thread_id u s).0) ≡ (u == t)
number_of_caller t n u s p room = elim (ℕ_discrete u t) [
  | yes same_thread ↦
      ap (λ m. n == m)
        (get_thread_id-again u n s (subst (λ x. s.thread_id x ≡ some n) (sym same_thread) p.given))
      ∙ ==_self n
      ∙ sym (ap (λ x. x == t) same_thread ∙ ==_self t)
  | no other ↦
      let g = get_thread_id-Given u s p.is_ids (omega (arith, room)) in
      ne→== n (get_thread_id u s).0 (λ e.
        other (sym (g.is_ids.one_thread t u n (g.kept t n p.given) (g.given ∙ ap some (sym e)))))
      ∙ sym (ne→== u t other)
]

published_number : (n id : ℕ) → 0 < n → (not (n == 0) && n == id && true) ≡ (n == id)
published_number n id positive = ground (arith, positive)

-- Before the worker has started, a handle of its runtime does not take any caller for the trustee. Once it has
-- started on thread `t`, and however many threads have asked for their numbers since, a caller takes the
-- shortcut to the property just if it is on thread `t`, and it is refused a blocking
-- delegation only on thread `t` and on threads that were marked before. When the guard of the worker drops,
-- thread `t` is not marked, even if it was before.
pub shortcut_on_worker_thread :
    {T : Type 0} (value : T) (base t u : ℕ) (us : List ℕ) (s : Ids) (marks : Marks) (owner : Bool)
    (early : Thread)
    → IsIds s
    → s.thread_id_counter + length us + 3 < 2 ^ 64
    → (let r = (spawn value base).1.registrar in
        let w = start_worker t r s marks in
        let c = caller u (ask_all us w.ids) w.marks in
        (on_trustee early (view r owner) ≡ false)
        × (on_trustee c (view w.registrar owner) ≡ (u == t))
        × (c.is_trustee ≡ (u == t || marks u))
        × (is_trustee_thread u (leave t w.marks) ≡ (not (u == t) && marks u)))
unfolding spawn start_worker caller on_trustee view enter leave set_mark is_trustee_thread
shortcut_on_worker_thread value base t u us s marks owner early is room =
    let g = get_thread_id-Given t s is (omega (arith, room)) in
    let (p, left) =
      ask_all-Published t (get_thread_id t s).0 us (get_thread_id t s).1
        (record { is_ids = g.is_ids; given = g.given }) (omega (arith, room, g.grown)) in
    (
      refl,
      published_number (get_thread_id t s).0 _ (g.is_ids.below t _ g.given).0
          ∙ number_of_caller t (get_thread_id t s).0 u (ask_all us (get_thread_id t s).1) p left,
      ground arith,
      ground arith,
    )
