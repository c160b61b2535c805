-- ===== src/Err.antt =====
-- zcrt/zerrcode.h: the result codes.
use zcrt.Base.{ℕ, ◌-◌, ◌^◌, ◌<◌, Bool, true, false, arith}

pub data ZcrtErr : Type 0 where
  success param_err invalid_crt_module full no_mem timeout bad_object sock_init_err existed :
      ZcrtErr
  ipc_common_hdr_err ipc_body_err ipc_not_support ipc_no_module ipc_no_act ipc_tlv_err
        ipc_args_err :
      ZcrtErr

-- The value of a code as the bits of an int32_t: 0, or 2 ^ 32 less its distance from 0.
abbrev pub err_code : ZcrtErr → ℕ
err_code success = 0
err_code param_err = 2 ^ 32 - 100
err_code invalid_crt_module = 2 ^ 32 - 99
err_code full = 2 ^ 32 - 98
err_code no_mem = 2 ^ 32 - 97
err_code timeout = 2 ^ 32 - 96
err_code bad_object = 2 ^ 32 - 95
err_code sock_init_err = 2 ^ 32 - 94
err_code existed = 2 ^ 32 - 93
err_code ipc_common_hdr_err = 2 ^ 32 - 79
err_code ipc_body_err = 2 ^ 32 - 78
err_code ipc_not_support = 2 ^ 32 - 77
err_code ipc_no_module = 2 ^ 32 - 76
err_code ipc_no_act = 2 ^ 32 - 75
err_code ipc_tlv_err = 2 ^ 32 - 74
err_code ipc_args_err = 2 ^ 32 - 73

abbrev pub is_success : ZcrtErr → Bool
is_success success = true
is_success _ = false

pub err_code-lt : (err : ZcrtErr) → err_code err < 2 ^ 32
err_code-lt success = omega arith
err_code-lt param_err = omega arith
err_code-lt invalid_crt_module = omega arith
err_code-lt full = omega arith
err_code-lt no_mem = omega arith
err_code-lt timeout = omega arith
err_code-lt bad_object = omega arith
err_code-lt sock_init_err = omega arith
err_code-lt existed = omega arith
err_code-lt ipc_common_hdr_err = omega arith
err_code-lt ipc_body_err = omega arith
err_code-lt ipc_not_support = omega arith
err_code-lt ipc_no_module = omega arith
err_code-lt ipc_no_act = omega arith
err_code-lt ipc_tlv_err = omega arith
err_code-lt ipc_args_err = omega arith
