-- ===== src/Examples/Starting.antt =====
-- A worker that starts on thread 5, where another trustee has run before, and callers on other threads.
use trust_tee.Prelude.{true, false, [], ◌∷◌, ◌≡◌, arith}
use trust_tee.Util.ThreadId.{initial, initial-IsIds}
use trust_tee.Util.Fiber.{unmarked, enter, leave, is_trustee_thread, set_mark}
use trust_tee.Runtime.Handles.{spawn}
use trust_tee.Runtime.Handles.Start.{
  Started, start_worker, caller, view, ask_all, shortcut_on_worker_thread,
}
use trust_tee.Remote.Client.{on_trustee}
use trust_tee.Examples.Data.{client_thread}

abbrev started : Started
started = start_worker 5 (spawn true 4096).1.registrar initial (enter 5 unmarked)

shortcut_on_worker_thread_example :
    (on_trustee client_thread (view (spawn true 4096).1.registrar true) ≡ false)
    × (on_trustee
          (caller 6 (ask_all (7 ∷ 6 ∷ []) started.ids) started.marks)
          (view started.registrar true)
        ≡ false)
    × ((caller 6 (ask_all (7 ∷ 6 ∷ []) started.ids) started.marks).is_trustee ≡ false)
    × (is_trustee_thread 6 (leave 5 started.marks) ≡ false)
unfolding enter set_mark
shortcut_on_worker_thread_example =
    shortcut_on_worker_thread true 4096 5 6 (7 ∷ 6 ∷ []) initial (enter 5 unmarked) true
      client_thread initial-IsIds (omega arith)
