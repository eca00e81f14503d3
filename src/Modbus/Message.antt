-- ===== src/Modbus/Message.antt =====
-- What the Modbus messages share: the connection (modbus.h), the macros ptk_buf_serialize and
-- ptk_buf_deserialize (include/ptk_buf.h), and the end of every send function. A structure's
-- `base` is its pdu_type alone: a create function puts its own type's two methods there. The
-- library is written for an allocator with parents, which are left out.
use protocol_toolkit.Prelude.{ℕ, Bool, Option, none, some, List, [], length, if◌then◌else◌, ◌>>=◌}
use protocol_toolkit.Err.{PtkErr, null_ptr, unsupported, is_ok}
use protocol_toolkit.Buf.{Buf, set_start, set_end}
use protocol_toolkit.Codec.{BufType, Value, Dest, Endian, Host, serialize_impl, deserialize_impl}

-- The socket is never used.
pub record Connection : Type 0 where
  pub rx_buffer : Option Buf
  pub tx_buffer : Option Buf
  pub unit_id : ℕ
  pub next_transaction_id : ℕ

module _ (host : Host) where
  unfoldable pub ptk_buf_serialize :
      Option Buf → Endian → List (BufType × Value) → Option (PtkErr × Option Buf)
  ptk_buf_serialize none endian args = some (null_ptr, none)
  ptk_buf_serialize (some buf) endian args = do
    (err, buf') ← serialize_impl host buf endian (length args) args
    some (err, some buf')

  unfoldable pub ptk_buf_deserialize :
      Option Buf → Bool → Endian → List (BufType × Dest) → Option (PtkErr × List ℕ × Option Buf)
  ptk_buf_deserialize none peek endian args = some (null_ptr, [], none)
  ptk_buf_deserialize (some buf) peek endian args = do
    (err, out, buf') ← deserialize_impl host buf peek endian (length args) args
    some (err, out, some buf')

-- The transmit buffer is emptied and filled; nothing sends it yet.
unfoldable pub transmit :
    (Option Buf → Option (PtkErr × Option Buf)) → Connection → Option (PtkErr × Option Connection)
transmit serialize conn = do
  (err, buf) ← serialize (set_end (set_start conn.tx_buffer 0).1 0).1
  some (if is_ok err then unsupported else err, some (record conn { tx_buffer = buf }))
