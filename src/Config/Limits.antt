-- ===== src/Config/Limits.antt =====
-- internal/config/config.go: the limits of a pool's containers, and their units.
--
-- CPUCount and Mebibytes are int64. A product wraps around at 64 bits, as Go's does.
use multirunner.Common.{
  ◌≡◌, ◌<◌, arith, ℕ, suc, ◌-◌, ◌*◌, ◌/◌, ◌^◌, ◌%◌, Bool, not, ◌&&◌, Option, List, [], ◌∷◌, ltb,
  if◌then◌else◌, any, ℤ, pos, negsuc, is_zero, lt_int, is_none,
}
use multirunner.Config.Types.{ContainerConfig, is_configured, Pool}
use multirunner.Config.Checks.{
  Error, negative_cpus, cpus_overflow, negative_memory, memory_overflow, negative_swap,
  swap_overflow, swap_without_memory, swap_below_memory, container_qemu, windows_swap,
  containerd_dns, invalid_dns, first_failure, and_then,
}
use multirunner.Config.Pools.{Outside, is_qemu, is_containerd, is_windows}
use multirunner.Pool.Access.{is_empty}

abbrev pub bytes_per_mib : ℕ
bytes_per_mib = 1024 * 1024

abbrev pub nanos_per_cpu : ℕ
nanos_per_cpu = 1000000000

-- math.MaxInt64
abbrev pub max_int64 : ℕ
max_int64 = 2 ^ 63 - 1

abbrev pub max_memory_mib : ℕ
max_memory_mib = max_int64 / bytes_per_mib

abbrev pub max_cpu_count : ℕ
max_cpu_count = max_int64 / nanos_per_cpu

-- The int64 with these lower 64 bits.
unfoldable pub signed : ℕ → ℤ
signed w = if ltb w (2 ^ 63) then pos w else negsuc (2 ^ 64 - 1 - w)

-- a * k, for an int64 a and a positive k.
unfoldable pub times : ℤ → ℕ → ℤ
unfolding signed
times (pos n) k = signed ((n * k) % 2 ^ 64)
times (negsuc n) k = signed (2 ^ 64 - 1 - (suc n * k - 1) % 2 ^ 64)

pub times-exact : (n k : ℕ) → n * k < 2 ^ 63 → times (pos n) k ≡ pos (n * k)
unfolding times signed
times-exact n k h = let low : (n * k) % 2 ^ 64 ≡ n * k = omega arith in rw low (ground arith)

-- NanoCPUs
unfoldable pub nano_cpus : ContainerConfig → ℤ
unfolding times
nano_cpus c = times c.cpus nanos_per_cpu

-- MemoryBytes
unfoldable pub memory_bytes : ContainerConfig → ℤ
unfolding times
memory_bytes c = times c.memory_mb bytes_per_mib

-- MemorySwapBytes
unfoldable pub memory_swap_bytes : ContainerConfig → ℤ
unfolding times
memory_swap_bytes c = times c.memory_swap_mb bytes_per_mib

-- The switch of validateContainerConfig.
abbrev pub limit_checks : Pool → List (Bool × Error)
limit_checks p =
    let cfg = p.container in
    (lt_int cfg.cpus (pos 0), negative_cpus)
    ∷ (lt_int (pos max_cpu_count) cfg.cpus, cpus_overflow)
    ∷ (lt_int cfg.memory_mb (pos 0), negative_memory)
    ∷ (lt_int (pos max_memory_mib) cfg.memory_mb, memory_overflow)
    ∷ (lt_int cfg.memory_swap_mb (pos 0), negative_swap)
    ∷ (lt_int (pos max_memory_mib) cfg.memory_swap_mb, swap_overflow)
    ∷ (not (is_zero cfg.memory_swap_mb) && is_zero cfg.memory_mb, swap_without_memory)
    ∷ (
      not (is_zero cfg.memory_swap_mb) && lt_int cfg.memory_swap_mb cfg.memory_mb,
      swap_below_memory,
    )
    ∷ (is_qemu p.backend && is_configured cfg, container_qemu)
    ∷ (is_windows p.os && not (is_zero cfg.memory_swap_mb), windows_swap)
    ∷ (is_containerd p.backend && not (is_empty cfg.dns), containerd_dns)
    ∷ []

-- validateContainerConfig
unfoldable pub validate_container_config : Outside → Pool → Option Error
unfolding first_failure and_then is_configured
validate_container_config env p = and_then (first_failure (limit_checks p)) (
    first_failure
      ((any (λ server. is_none (env.parse_ip server)) p.container.dns, invalid_dns) ∷ []))
