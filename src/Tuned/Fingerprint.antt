-- ===== src/Tuned/Fingerprint.antt =====
-- `BackendFingerprint`, `env_flag` and `check_fingerprint`. A warning is no more than a line of the
-- log, and is left out; what the environment holds is an argument.
pub mod Accepted
use libtriton_jit.Common.{
  Bool, true, false, not, ◌&&◌, Bytes, codes, text_eq, is_empty, Option, none, some, Result, ok,
  throw, ◌>>=◌, ◌>>◌, throw_if, if◌then◌else◌,
}

pub record BackendFingerprint : Type 0 where
  pub backend : Bytes
  pub vendor : Bytes
  pub device_name : Bytes
  pub arch : Bytes
  pub triton_version : Bytes
  pub libtriton_jit_version : Bytes

-- What `getenv` gives, `none` for a variable that is not set.
unfoldable pub env_flag : Option Bytes → Bool
env_flag none = false
env_flag (some value) = not (is_empty value) && not (text_eq value (codes "0"))

pub data FingerprintError : Type 0 where
  empty_backend other_backend other_device : FingerprintError

unfoldable pub check_backend :
    BackendFingerprint → BackendFingerprint → Result FingerprintError (Unit {0})
check_backend table runtime =
    if is_empty runtime.backend
    then ok tt
    else throw_if (not (text_eq table.backend runtime.backend)) other_backend

unfoldable pub check_device :
    Bool → BackendFingerprint → BackendFingerprint → Result FingerprintError (Unit {0})
check_device ignore_device table runtime =
    if is_empty table.device_name
    then ok tt
    else if is_empty runtime.device_name
    then ok tt
    else throw_if (not (text_eq table.device_name runtime.device_name) && not ignore_device)
        other_device

-- `ignore_device` is TRITON_JIT_TUNED_IGNORE_DEVICE.
unfoldable pub check_fingerprint :
    Option Bytes → BackendFingerprint → BackendFingerprint → Result FingerprintError (Unit {0})
unfolding env_flag check_backend check_device
check_fingerprint ignore_device table runtime = do
  throw_if (is_empty table.backend) empty_backend
  check_backend table runtime
  check_device (env_flag ignore_device) table runtime
