-- ===== src/Modbus/Pdu/WriteMultipleRegistersReq/Fails.antt =====
-- No request to write several registers can be read.
use protocol_toolkit.Prelude.{ℕ, false, Option, none, some, ◌≡◌, arith, ◌⊎◌}
use protocol_toolkit.Err.{PtkErr, is_ok}
use protocol_toolkit.Heap.{Grants}
use protocol_toolkit.Buf.{Buf}
use protocol_toolkit.Codec.{Host}
use protocol_toolkit.Array.{array_create}
use protocol_toolkit.Modbus.Pdu.WriteMultipleRegistersReq.{WriteMultipleRegistersReq, deserialize}

-- The deserialize method of a request to write several registers never answers PTK_OK, whatever
-- the buffer holds and whether or not there is memory: it reports an error, or it uses the result
-- of an array's create function that returned none.
pub deserialize_fails :
    (host : Host) (grants : Grants) (call : ℕ) (buf : Option Buf)
    → (req : WriteMultipleRegistersReq)
    → (deserialize host grants call buf req ≡ none)
      ⊎ ((err : PtkErr) × (req' : WriteMultipleRegistersReq) × (buf' : Option Buf) × (deserialize
              host grants call buf req
            ≡ some (err, req', buf'))
          × (is_ok err ≡ false))
unfolding deserialize array_create
deserialize_fails host grants call buf req = ground arith
