-- ===== src/Util/Affinity/Pinning.antt =====
-- src/util/affinity.rs: `pin_current_thread`, as the system calls that it makes. The code drops their
-- results. `none` is a write outside the CPU set.
use mathlib.Core.Option
use trust_tee.Prelude.{
  ℕ, ◌*◌, ◌^◌, ◌≡◌, refl, ap, ap₂, ◌∙◌, length, bit_or, List, [], ◌∷◌, ◌++◌, Option, none, some,
  Bool, true, false, ltb, ltb→lt, ltb→le, Bool-cases, inl, inr, if◌then◌else◌, arith,
}
use trust_tee.Prelude.Bits.{bit_or_zero_left}
use trust_tee.Util.Affinity.{cpu_words, cpu_set, bits_of, cpu_set_lem, cpu_set-outside}

-- The cfg of the build; `miri` excludes the others.
pub data Target : Type 0 where
  miri : Target
  linux : Target
  macos : Target
  other_os : Target

-- An affinity tag is the 32 bits of an `i32`.
pub record PinConfig : Type 0 where
  pub core_id : Option ℕ
  pub numa_node : Option ℕ
  pub mem_bind : Bool
  pub mac_affinity_tag : Option ℕ

-- The calls for the current thread: `pthread_setaffinity_np` with the size and the words of its set,
-- `set_mempolicy` with its mode, mask and number of nodes, and `thread_policy_set` with its flavor, tag
-- and count.
pub data SystemCall : Type 0 where
  set_affinity : ℕ → List ℕ → SystemCall
  set_mempolicy : ℕ → ℕ → ℕ → SystemCall
  thread_policy_set : ℕ → ℕ → ℕ → SystemCall

abbrev pub cpu_set_bytes : ℕ
cpu_set_bytes = 8 * cpu_words

abbrev pub mpol_bind : ℕ
mpol_bind = 2

abbrev pub thread_affinity_policy : ℕ
thread_affinity_policy = 4

unfoldable pub pin_core : Option ℕ → Option (List SystemCall)
pin_core none = some []
pin_core (some core) = Option.map (λ words. set_affinity cpu_set_bytes words ∷ []) (cpu_set core)

unfoldable pub bind_memory : Option ℕ → Bool → List SystemCall
bind_memory (some node) true =
    if ltb node 64 then set_mempolicy mpol_bind (bit_or 0 (2 ^ node)) 64 ∷ [] else []
bind_memory (some node) false = []
bind_memory none mem_bind = []

unfoldable pub set_tag : Option ℕ → List SystemCall
set_tag (some tag) = thread_policy_set thread_affinity_policy tag 1 ∷ []
set_tag none = []

unfoldable pub pin_current_thread : Target → PinConfig → Option (List SystemCall)
unfolding pin_core bind_memory set_tag
pin_current_thread Target.miri cfg = some []
pin_current_thread Target.linux cfg =
    Option.map (λ calls. calls ++ bind_memory cfg.numa_node cfg.mem_bind) (pin_core cfg.core_id)
pin_current_thread Target.macos cfg = some (set_tag cfg.mac_affinity_tag)
pin_current_thread Target.other_os cfg = some []

-- What the arguments of the calls say: the bytes and words of the CPU set and the number whose bits are its
-- CPUs, the mode, the bits and the number of the nodes, and the flavor, tag and count of the policy.
pub record Asked : Type 0 where
  pub cpus : Option (ℕ × ℕ × ℕ)
  pub nodes : Option (ℕ × ℕ × ℕ)
  pub tag : Option (ℕ × ℕ × ℕ)

unfoldable pub asked : List SystemCall → Asked
asked [] = record { cpus = none; nodes = none; tag = none }
asked (set_affinity size words ∷ calls) = record (asked calls) {
  cpus = some (size, length words, bits_of words);
}
asked (set_mempolicy mode mask count ∷ calls) = record (asked calls) {
  nodes = some (mode, mask, count);
}
asked (thread_policy_set flavor tag count ∷ calls) = record (asked calls) {
  tag = some (flavor, tag, count);
}

-- The nodes to which a configuration binds memory, with `MPOL_BIND` among 64 of them.
unfoldable pub bound_nodes : Option ℕ → Bool → Option (ℕ × ℕ × ℕ)
bound_nodes (some node) true = if ltb node 64 then some (2, 2 ^ node, 64) else none
bound_nodes (some node) false = none
bound_nodes none mem_bind = none

asked-bind_memory :
    (node : Option ℕ) (mem_bind : Bool)
    → asked (bind_memory node mem_bind)
      ≡ record { cpus = none; nodes = bound_nodes node mem_bind; tag = none }
unfolding asked bind_memory bound_nodes
asked-bind_memory none mem_bind = refl
asked-bind_memory (some node) false = refl
asked-bind_memory (some node) true = grind (arith, bit_or_zero_left (2 ^ node))

-- The affinity tag, with the flavor and the count of `THREAD_AFFINITY_POLICY`.
unfoldable pub policy : Option ℕ → Option (ℕ × ℕ × ℕ)
policy none = none
policy (some tag) = some (4, tag, 1)

tag_asked :
    (tag : Option ℕ) → asked (set_tag tag) ≡ record { cpus = none; nodes = none; tag = policy tag }
unfolding asked set_tag policy
tag_asked none = refl
tag_asked (some tag) = refl

-- The set of 128 bytes that a core number asks for; `none` where it has no such bit.
unfoldable pub asked_cpus : Option ℕ → Option (Option (ℕ × ℕ × ℕ))
asked_cpus none = some none
asked_cpus (some core) = if ltb core 1024 then some (some (128, 16, 2 ^ core)) else none

linux_asks :
    (core node : Option ℕ) (mem_bind : Bool)
    → Option.map asked (Option.map (λ calls. calls ++ bind_memory node mem_bind) (pin_core core))
      ≡ Option.map
          (λ cpus. record { cpus = cpus; nodes = bound_nodes node mem_bind; tag = none })
          (asked_cpus core)
unfolding asked pin_core asked_cpus
linux_asks none node mem_bind = ap some (asked-bind_memory node mem_bind)
linux_asks (some core) node mem_bind = elim (Bool-cases (ltb core 1024)) [
  | inl small ↦
      let (words, made, sized, bits) = cpu_set_lem core (ltb→lt core 1024 small) in
      rw (made, small)
        (ap some (
          ap {A = Asked}
            (λ a. record a { cpus = some (cpu_set_bytes, length words, bits_of words) })
            (asked-bind_memory node mem_bind)
          ∙ ap₂
              (λ n b. record {
                cpus = some (128, n, b);
                nodes = bound_nodes node mem_bind;
                tag = none;
              })
              sized bits))
  | inr large ↦ rw (cpu_set-outside core (ltb→le core 1024 large), large) refl
]

-- On Linux the calls give the core of the configuration, if the CPU set has its bit, as the only one in a set of 128
-- bytes and sixteen words, and with `mem_bind` its node below 64, as the only one in a mask of 64 nodes with the mode
-- 2 of `MPOL_BIND`; for a core from 1024 on the write goes outside the set. On macOS they give the affinity tag with
-- the flavor 4 and the count 1 of its policy; elsewhere, and under Miri, there is no call.
pub pin_current_thread_lem :
    (cfg : PinConfig)
    → (Option.map asked (pin_current_thread Target.linux cfg)
        ≡ Option.map
            (λ cpus. record {
              cpus = cpus;
              nodes = bound_nodes cfg.numa_node cfg.mem_bind;
              tag = none;
            })
            (asked_cpus cfg.core_id))
      × (Option.map asked (pin_current_thread Target.macos cfg)
          ≡ some (record { cpus = none; nodes = none; tag = policy cfg.mac_affinity_tag }))
      × (pin_current_thread Target.other_os cfg ≡ some [])
      × (pin_current_thread Target.miri cfg ≡ some [])
unfolding pin_current_thread
pin_current_thread_lem cfg = (
  linux_asks cfg.core_id cfg.numa_node cfg.mem_bind,
  ap some (tag_asked cfg.mac_affinity_tag),
  refl,
  refl,
)
