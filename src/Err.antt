-- ===== src/Err.antt =====
-- The error codes of include/ptk_err.h, and ptk_err_to_string of lib/ptk_err.c.

use protocol_toolkit.Prelude.{Bool, true, false, ◌≡◌, refl}

pub data PtkErr : Type 0 where
  ok : PtkErr
  out_of_bounds : PtkErr
  null_ptr : PtkErr
  no_resources : PtkErr
  bad_format : PtkErr
  invalid_param : PtkErr
  network_error : PtkErr
  closed : PtkErr
  timeout : PtkErr
  would_block : PtkErr
  address_in_use : PtkErr
  connection_refused : PtkErr
  host_unreachable : PtkErr
  protocol_error : PtkErr
  checksum_failed : PtkErr
  buffer_too_small : PtkErr
  parse_error : PtkErr
  unsupported_version : PtkErr
  sequence_error : PtkErr
  authentication_failed : PtkErr
  authorization_failed : PtkErr
  rate_limited : PtkErr
  device_busy : PtkErr
  device_failure : PtkErr
  configuration_error : PtkErr
  interrupt : PtkErr
  abort : PtkErr
  validation : PtkErr
  unsupported : PtkErr

-- `err == PTK_OK`.
abbrev pub is_ok : PtkErr → Bool
is_ok ok = true
is_ok _ = false

pub is_ok-eq_ok : (e : PtkErr) → is_ok e ≡ true → e ≡ ok
is_ok-eq_ok ok h = refl
is_ok-eq_ok _ h = cc
