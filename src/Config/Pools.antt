-- ===== src/Config/Pools.antt =====
-- internal/config/config.go: the checks of one pool.
use multirunner.Common.{
  Bool, true, false, not, ◌&&◌, ◌||◌, Option, none, List, [], ◌∷◌, if◌then◌else◌, Text, codes,
  text_eq, starts_with, pos, lt_int,
}
use multirunner.Config.Strings.{trim_space, contains_any, to_lower, seen_before}
use multirunner.Config.Types.{
  Os, linux, windows, Backend, unset_backend, docker, containerd, qemu, tls_configured, Pool,
}
use multirunner.Config.Checks.{
  Error, golden_required, invalid_tools, host_required, tls_backend, tls_files_required, tls_host,
  workspace_dind, workspace_backend, workspace_folder, workspace_size, invalid_size, name_required,
  duplicate_name, unknown_os, first_failure,
}
use multirunner.Pool.Access.{is_empty}

-- What the checks call: winvm.ValidateToolSelectors, net.ParseIP with String (`none` for no address),
-- and the release lines of the embedded image manifest.
pub record Outside : Type 0 where
  pub valid_tools : List Text → Bool
  pub parse_ip : Text → Option Text
  pub release_lines : List Text

abbrev pub is_docker : Backend → Bool
is_docker unset_backend = true
is_docker docker = true
is_docker _ = false

abbrev pub is_qemu : Backend → Bool
is_qemu qemu = true
is_qemu _ = false

abbrev pub is_containerd : Backend → Bool
is_containerd containerd = true
is_containerd _ = false

abbrev pub is_linux : Os → Bool
is_linux linux = true
is_linux _ = false

abbrev pub is_windows : Os → Bool
is_windows windows = true
is_windows _ = false

-- The first checks of a pool: its name, and its operating system.
unfoldable pub check_name : List Text → Pool → Option Error
unfolding first_failure
check_name seen p = first_failure (
    (is_empty p.name, name_required)
    ∷ (seen_before p.name seen, duplicate_name)
    ∷ (not (is_linux p.os) && not (is_windows p.os), unknown_os)
    ∷ [])

unfoldable pub check_backend : Outside → Pool → Option Error
unfolding first_failure
check_backend env p =
    if is_qemu p.backend
    then first_failure (
        (is_empty p.qemu.golden, golden_required)
        ∷ (not (env.valid_tools p.qemu.tools), invalid_tools)
        ∷ [])
    else first_failure ((is_empty p.docker.host, host_required) ∷ [])

-- if p.Docker.TLS.configured() { ... }
unfoldable pub check_tls : Pool → Option Error
unfolding first_failure tls_configured
check_tls p =
    if tls_configured p.docker.tls
    then first_failure (
        (not (is_docker p.backend), tls_backend)
        ∷ (
          is_empty p.docker.tls.ca_file
              || is_empty p.docker.tls.cert_file
              || is_empty p.docker.tls.key_file,
          tls_files_required,
        )
        ∷ (not (starts_with (to_lower p.docker.host) (codes "tcp://")), tls_host)
        ∷ [])
    else none

-- if p.Docker.ShareWorkspace { ... }, and the size.
unfoldable pub check_workspace : Pool → Option Error
unfolding first_failure
check_workspace p =
    if p.docker.share_workspace
    then first_failure (
        (not p.docker.enable_dind, workspace_dind)
        ∷ (not (is_linux p.os) || not (is_docker p.backend), workspace_backend)
        ∷ (
          text_eq p.work_folder (codes ".")
              || text_eq p.work_folder (codes "..")
              || not (text_eq (trim_space p.work_folder) p.work_folder)
              || contains_any p.work_folder (47 ∷ 92 ∷ []),
          workspace_folder,
        )
        ∷ (lt_int p.size (pos 1) || lt_int (pos 1) p.size, workspace_size)
        ∷ [])
    else none

unfoldable pub check_size : Pool → Option Error
unfolding first_failure
check_size p = first_failure ((lt_int p.size (pos 1), invalid_size) ∷ [])
