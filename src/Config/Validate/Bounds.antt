-- ===== src/Config/Validate/Bounds.antt =====
-- The limits of the containers of an accepted configuration, in the units of the backends.
use native.Mathlib.Nat.{eq-zero-or-pos}
use multirunner.Common.{
  ℕ, ◌*◌, ◌^◌, ◌<◌, ◌≤◌, ◌≡◌, refl, false, not, ◌&&◌, ◌⊎◌, inl, inr, none, ℤ, pos, negsuc, lt_int,
  is_zero, All, All-map, arith,
}
use multirunner.Config.Types.{ContainerConfig, Pool, Config}
use multirunner.Config.Checks.{first_failure-Passed, and_then-none}
use multirunner.Config.Pools.{Outside}
use multirunner.Config.Limits.{
  bytes_per_mib, nanos_per_cpu, max_cpu_count, max_memory_mib, times, times-exact, nano_cpus,
  memory_bytes, memory_swap_bytes, limit_checks, validate_container_config,
}
use multirunner.Config.Validate.{validate}
use multirunner.Config.Validate.Passing.{validate-Accepted}

product : (a : ℤ) (n k : ℕ) → a ≡ pos n → n * k < 2 ^ 63 → times a k ≡ pos (n * k)
product a n k e h = rw e (times-exact n k h)

-- The limits are natural numbers, the products for the backends are the exact ones, and a limit of
-- memory and swap is not below the one of memory.
pub record ExactLimits (c : ContainerConfig) : Type 0 where
  pub cpus : ℕ
  pub memory : ℕ
  pub swap : ℕ
  pub cpus_eq : c.cpus ≡ pos cpus
  pub memory_eq : c.memory_mb ≡ pos memory
  pub swap_eq : c.memory_swap_mb ≡ pos swap
  pub nanos : nano_cpus c ≡ pos (cpus * 1000000000)
  pub bytes : memory_bytes c ≡ pos (memory * 1048576)
  pub swap_bytes : memory_swap_bytes c ≡ pos (swap * 1048576)
  pub ordered : (swap ≡ 0) ⊎ (memory ≤ swap)

-- A number that is neither negative nor above a bound.
within :
    (a : ℤ) (bound : ℕ)
    → lt_int a (pos 0) ≡ false
    → lt_int (pos bound) a ≡ false
    → (n : ℕ) × (a ≡ pos n) × (n ≤ bound)
within (pos n) bound h k = (n, refl, ground arith)
within (negsuc n) bound h k = absurd (cc)

ordered_limits :
    (a b : ℤ) (m s : ℕ)
    → a ≡ pos m
    → b ≡ pos s
    → (not (is_zero b) && lt_int b a) ≡ false
    → (s ≡ 0) ⊎ (m ≤ s)
ordered_limits (pos x) (pos y) m s e f h = elim (eq-zero-or-pos s) [
  | inl z ↦ inl z
  | inr p ↦ inr (ground arith)
]
ordered_limits (pos x) (negsuc y) m s e f h = absurd (cc)
ordered_limits (negsuc x) b m s e f h = absurd (cc)

validate_container_config-Exact :
    (env : Outside) (p : Pool) → validate_container_config env p ≡ none → ExactLimits p.container
unfolding validate_container_config nano_cpus memory_bytes memory_swap_bytes
validate_container_config-Exact env p h =
    let checks = first_failure-Passed (limit_checks p) (and_then-none _ _ h).0 in
    let (n, n_eq, n_le) = within p.container.cpus max_cpu_count checks.0 checks.1.0 in
    let (m, m_eq, m_le) = within p.container.memory_mb max_memory_mib checks.1.1.0 checks.1.1.1.0 in
    let (s, s_eq, s_le) =
      within p.container.memory_swap_mb max_memory_mib checks.1.1.1.1.0 checks.1.1.1.1.1.0 in
    record {
      cpus = n;
      memory = m;
      swap = s;
      cpus_eq = n_eq;
      memory_eq = m_eq;
      swap_eq = s_eq;
      nanos = product p.container.cpus n nanos_per_cpu n_eq (omega arith);
      bytes = product p.container.memory_mb m bytes_per_mib m_eq (omega arith);
      swap_bytes = product p.container.memory_swap_mb s bytes_per_mib s_eq (omega arith);
      ordered =
          ordered_limits p.container.memory_mb p.container.memory_swap_mb m s m_eq s_eq
            checks.1.1.1.1.1.1.1.0;
    }

-- Whatever limits a configuration names, one that is accepted has limits that are not negative, whose
-- products for the backends (nanoseconds of processor time, and bytes) do not overflow an int64 but
-- are the exact ones, and no limit of memory and swap below the one of memory.
pub validate-ExactLimits :
    (env : Outside) (c : Config)
    → validate env c ≡ none
    → All (λ (p : Pool). ExactLimits p.container) c.pools
validate-ExactLimits env c h =
    All-map (λ p passed. validate_container_config-Exact env p passed.container) c.pools
      (validate-Accepted env c h).pools
