-- ===== src/Config/Types.antt =====
-- internal/config/config.go: the configuration, with the fields that Load's defaults and checks read.
--
-- An empty text is an unset string. A string that is compared with fixed words only is a data type,
-- with one constructor for every other string.
use multirunner.Common.{Bool, true, false, not, ◌&&◌, ◌||◌, Option, List, Text, ℤ, is_zero}
use multirunner.Config.Scope.{Scope}
use multirunner.Pool.Access.{is_empty}

pub data Provisioning : Type 0 where
  unset_mode pool_mode autoscale_mode webhook_mode scaleset_mode other_mode : Provisioning

-- IsAutoscale
unfoldable pub is_autoscale : Provisioning → Bool
is_autoscale autoscale_mode = true
is_autoscale webhook_mode = true
is_autoscale _ = false

-- IsScaleset
unfoldable pub is_scaleset : Provisioning → Bool
is_scaleset scaleset_mode = true
is_scaleset _ = false

pub data Os : Type 0 where
  linux windows other_os : Os

pub data Backend : Type 0 where
  unset_backend docker containerd qemu other_backend : Backend

pub record GitHub : Type 0 where
  pub url : Text
  pub scope : Option Scope
  pub owner : Text
  pub repo : Text
  pub repos : List Text

pub record Auth : Type 0 where
  pub pat : Text
  pub app_id : ℤ
  pub installation_id : ℤ
  pub private_key_path : Text
  pub token_path : Text

-- IsApp
unfoldable pub is_app : Auth → Bool
is_app a = is_empty a.pat && not (is_zero a.app_id)

-- IsDeviceApp
unfoldable pub is_device_app : Auth → Bool
is_device_app a = is_empty a.pat && is_zero a.app_id && not (is_empty a.token_path)

pub record ContainerConfig : Type 0 where
  pub cpus : ℤ
  pub memory_mb : ℤ
  pub memory_swap_mb : ℤ
  pub dns : List Text

-- configured, of ContainerConfig.
unfoldable pub is_configured : ContainerConfig → Bool
is_configured c =
    not (is_zero c.cpus)
    || not (is_zero c.memory_mb)
    || not (is_zero c.memory_swap_mb)
    || not (is_empty c.dns)

pub record DockerTls : Type 0 where
  pub ca_file : Text
  pub cert_file : Text
  pub key_file : Text

-- configured, of DockerTLS.
unfoldable pub tls_configured : DockerTls → Bool
tls_configured t =
    not (is_empty t.ca_file) || not (is_empty t.cert_file) || not (is_empty t.key_file)

pub record Docker : Type 0 where
  pub host : Text
  pub tls : DockerTls
  pub enable_dind : Bool
  pub share_workspace : Bool

pub record Qemu : Type 0 where
  pub golden : Text
  pub tools : List Text

pub record Pool : Type 0 where
  pub name : Text
  pub os : Os
  pub backend : Backend
  pub size : ℤ
  pub image_tier : Text
  pub image : Text
  pub container : ContainerConfig
  pub qemu : Qemu
  pub runner_group_id : ℤ
  pub labels : List Text
  pub repository : Text
  pub workflows : List Text
  pub workflow_event : Text
  pub workflow_actor : Text
  pub workflow_ref : Text
  pub work_folder : Text
  pub name_prefix : Text
  pub docker : Docker
  pub max_consecutive_failures : ℤ
  pub scale_set : Text

pub record Webhook : Type 0 where
  pub path : Text
  pub secret : Text
  pub poll_interval_sec : ℤ

pub record Cache : Type 0 where
  pub enabled : Bool
  pub mode : Text
  pub storage : Text
  pub listen : Text
  pub upstream : Text
  pub access_token : Text
  pub max_age_days : ℤ
  pub gc_interval_sec : ℤ

pub data GitCacheMode : Type 0 where
  mirror dotgit_cache other_cache_mode : GitCacheMode

pub record GitCache : Type 0 where
  pub mode : GitCacheMode
  pub path : Text
  pub max_age_days : ℤ

-- Enabled
unfoldable pub is_enabled : GitCache → Bool
is_enabled g = elim g.mode [
  | mirror ↦ not (is_empty g.path)
  | dotgit_cache ↦ not (is_empty g.path)
  | other_cache_mode ↦ false
]

pub record Log : Type 0 where
  pub level : Text
  pub format : Text

pub record Config : Type 0 where
  pub github : GitHub
  pub auth : Auth
  pub provisioning : Provisioning
  pub cache : Cache
  pub git_cache : GitCache
  pub webhook : Webhook
  pub pools : List Pool
  pub log : Log
