-- ===== src/Boot/Laws.antt =====
-- The requests of `kernel_setup` and the memory that holds its text.
use os_2024_operatingstress.Base.{ℕ, refl, arith}
use os_2024_operatingstress.Fat32.Types.{IsRequest}
use os_2024_operatingstress.Fat32.Driver.{DriverState, store_bytes}
use os_2024_operatingstress.Fat32.Driver.Invariant.{IsState, store_bytes-byte}
use os_2024_operatingstress.Boot.{shell_request, input_bytes, text_request}

pub shell-IsRequest : IsRequest shell_request
shell-IsRequest = record {
  name = refl;
  ext = refl;
  name_bytes = omega arith;
  ext_bytes = omega arith;
  parent = omega arith;
  size = omega arith;
}

pub text-IsRequest : (input : ℕ) → IsRequest (text_request input)
text-IsRequest input = record {
  name = refl;
  ext = refl;
  name_bytes = omega arith;
  ext_bytes = omega arith;
  parent = omega arith;
  size = omega arith;
}

-- The local array, filled in.
pub filled-IsState :
    (input : ℕ) (s : DriverState)
    → IsState s
    → IsState (record s { memory = store_bytes s.memory input input_bytes })
filled-IsState input s v = record {
  memory = store_bytes-byte s.memory input input_bytes (omega arith) v.memory;
  disk = v.disk;
  fat = v.fat;
  table = v.table;
}
