-- ===== src/FdManager/Tests.antt =====
-- A new manager, and the theorems at concrete inputs.
use server_demo.Common.{true, false, none, some, replicate, arith}
use server_demo.FdManager.Table.{FdCtx, System, FdManager, no_timeout}
use server_demo.FdManager.Laws.{IsValid}

abbrev closed_ctx : FdCtx
closed_ctx = record {
  is_init = false;
  is_socket = false;
  sys_nonblock = false;
  user_nonblock = false;
  is_closed = true;
  fd = 0;
  recv_timeout = no_timeout;
  send_timeout = no_timeout;
}

abbrev fresh : FdManager
fresh = record { datas = replicate 64 none; heap = λ a. closed_ctx; next_address = 0 }

fresh-IsValid : IsValid fresh
fresh-IsValid = record { room = omega arith }

-- A socket that blocks.
abbrev socket : System
socket = record { stat = some true; o_nonblock = false }
