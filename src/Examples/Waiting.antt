-- ===== src/Examples/Waiting.antt =====
-- A thread that waits, another that writes and notifies, and a configuration for pinning.
use mathlib.Core.Option
use trust_tee.Prelude.{ℕ, ◌^◌, Bool, true, false, not, none, some, ◌≡◌, refl, []}
use trust_tee.Util.CondLatch.{
  Latch, Phase, Reach, waits, tests, locks, writes, drops_guard, notifies, relocks, start, step,
  acquire, release, test_condition, notify_all, set_phase, new, holds,
}
use trust_tee.Util.CondLatch.Waiters.{asleep_unmet, held_by}
use trust_tee.Util.Affinity.Pinning.{
  PinConfig, Target, pin_current_thread, asked, bound_nodes, asked_cpus, policy,
  pin_current_thread_lem,
}

abbrev entered : Latch Bool → ℕ → Phase Bool → Latch Bool
entered l t next = record l { holder = some t; phase = set_phase t next l.phase }

abbrev sleeping : Latch Bool
sleeping = test_condition 5 not (entered (new true) 5 (Phase.testing not))

abbrev notified_again : Latch Bool
notified_again =
    notify_all (release 6 Phase.idle (record (entered sleeping 6 Phase.guarding) { value = true }))

abbrev asleep_again : Latch Bool
asleep_again = test_condition 5 not (entered notified_again 5 (Phase.testing not))

-- Thread 6 writes the value, though not so that the condition holds, and notifies; thread 5 tests and sleeps.
again : Reach true asleep_again false
unfolding new acquire release test_condition notify_all
again =
    step
      (step
        (step
          (step
            (step
              (step
                (step
                  (step start (
                    waits (new true) (entered (new true) 5 (Phase.testing not)) false 5 not refl
                      refl))
                  (tests (entered (new true) 5 (Phase.testing not)) false 5 not refl))
                (locks sleeping (entered sleeping 6 Phase.guarding) false 6 refl refl))
              (writes (entered sleeping 6 Phase.guarding) false 6 true refl))
            (drops_guard (record (entered sleeping 6 Phase.guarding) { value = true }) true 6 refl))
          (notifies
            (release 6 Phase.idle (record (entered sleeping 6 Phase.guarding) { value = true }))
            true))
        (relocks notified_again (entered notified_again 5 (Phase.testing not)) false 5 not refl
          refl))
      (tests (entered notified_again 5 (Phase.testing not)) false 5 not refl)

asleep_unmet_example :
    (not asleep_again.value ≡ false)
    × ((u : ℕ) → holds (asleep_again.phase u) ≡ held_by asleep_again.holder u)
unfolding new release test_condition notify_all
asleep_unmet_example = asleep_unmet 5 not again refl

abbrev pinned : PinConfig
pinned = record {
  core_id = some 70;
  numa_node = some 3;
  mem_bind = true;
  mac_affinity_tag = some 9;
}

pin_current_thread_lem_example :
    (Option.map asked (pin_current_thread Target.linux pinned)
      ≡ some (record { cpus = some (128, 16, 2 ^ 70); nodes = some (2, 2 ^ 3, 64); tag = none }))
    × (Option.map asked (pin_current_thread Target.macos pinned)
        ≡ some (record { cpus = none; nodes = none; tag = some (4, 9, 1) }))
    × (pin_current_thread Target.other_os pinned ≡ some [])
    × (pin_current_thread Target.miri pinned ≡ some [])
unfolding bound_nodes asked_cpus policy
pin_current_thread_lem_example = pin_current_thread_lem pinned
