-- ===== src/Eip.antt =====
-- examples/ethernetip/ethernetip_find_devices/ethernetip_find_devices.c: the request that asks for
-- devices and what is read from a response. The byte order PTK_BUF_NATIVE_ENDIAN is not in
-- include/ptk_buf.h: it is the parameter `native`; it is used for single bytes alone. What is
-- printed about a response is returned here; the texts and the look-ups of names are left out.
pub mod Request
pub mod Reads
pub mod Name
pub mod Safe
pub mod Wire
pub mod Device
pub mod RoundTrip
use protocol_toolkit.Prelude.{
  ℕ, zero, suc, ◌+◌, ◌-◌, ◌<◌, ◌≤◌, Bool, true, false, not, ◌&&◌, ◌||◌, Option, none, some, List,
  [], ◌∷◌, ◌++◌, map, ltb, leb, if◌then◌else◌, ◌==◌, ◌>>=◌, get_or, take, replicate, min, store_at,
}
use protocol_toolkit.Err.{PtkErr, ok, protocol_error, buffer_too_small, is_ok}
use protocol_toolkit.Buf.{Buf, buf_size, get_start, set_start}
use protocol_toolkit.Codec.{
  BufType, u8, u16, u32, u64, s16, num, Endian, little_endian, big_endian, Host,
}
use protocol_toolkit.Codec.Read.{slot_arg}
use protocol_toolkit.Modbus.Message.{ptk_buf_serialize, ptk_buf_deserialize}

abbrev pub list_identity_cmd : ℕ
list_identity_cmd = 0x0063

abbrev pub cpf_type_cip_identity : ℕ
cpf_type_cip_identity = 0x000c

-- What is printed of a CIP identity item; `none` where it is not there.
pub record Identity : Type 0 where
  pub encap_version : ℕ
  pub sin_family : ℕ
  pub sin_port : ℕ
  pub sin_addr : List ℕ
  pub vendor_id : ℕ
  pub device_type : ℕ
  pub product_code : ℕ
  pub revision_major : ℕ
  pub revision_minor : ℕ
  -- The status word and the serial number.
  pub status : Option (ℕ × ℕ)
  pub product_name : Option (List ℕ)
  pub device_state : Option ℕ

pub data Item : Type 0 where
  identity : Identity → Item
  skipped : ℕ → ℕ → Item

-- The characters of the array up to the first 0.
abbrev pub c_string : List ℕ → List ℕ
c_string [] = []
c_string (c ∷ cs) = if c == 0 then [] else c ∷ c_string cs

abbrev pub printable : ℕ → ℕ
printable c = if leb 0x20 c && leb c 0x7e then c else 0x3f

-- The variables of the parse, as what is printed.
abbrev pub identity_of :
    List ℕ → List ℕ → List ℕ → List ℕ → Option (ℕ × ℕ) → Option (List ℕ) → Option ℕ → Identity
identity_of version socket addr out status name state = record {
  encap_version = get_or version 0 0;
  sin_family = get_or socket 0 0;
  sin_port = get_or socket 1 0;
  sin_addr = addr;
  vendor_id = get_or out 0 0;
  device_type = get_or out 1 0;
  product_code = get_or out 2 0;
  revision_major = get_or out 3 0;
  revision_minor = get_or out 4 0;
  status = status;
  product_name = name;
  device_state = state;
}

module _ (host : Host) where
  -- The request: command, length, session handle, status, sender context and options.
  unfoldable pub build_list_identity_request : Option Buf → Option (PtkErr × Option Buf)
  build_list_identity_request buf = ptk_buf_serialize host buf little_endian (
      (u16, num list_identity_cmd)
      ∷ (u16, num 0)
      ∷ (u32, num 0)
      ∷ (u32, num 0)
      ∷ (u64, num 1000)
      ∷ (u32, num 0)
      ∷ [])

  -- ptk_buf_deserialize into variables of the types.
  abbrev pub read : Endian → List BufType → Option Buf → Option (PtkErr × List ℕ × Option Buf)
  read endian types buf = ptk_buf_deserialize host buf false endian (map slot_arg types)

  unfoldable pub parse_eip_header : Option Buf → Option (PtkErr × List ℕ × Option Buf)
  parse_eip_header buf = read little_endian (u16 ∷ u16 ∷ u32 ∷ u32 ∷ u64 ∷ u32 ∷ []) buf

module _ (host : Host) (native : Endian) where
  -- `count` single bytes, one after the other.
  unfoldable pub read_bytes : ℕ → Option Buf → Option (PtkErr × List ℕ × Option Buf)
  read_bytes zero buf = some (ok, [], buf)
  read_bytes (suc count) buf = do
    (err, out, buf) ← read host native (u8 ∷ []) buf
    if not (is_ok err)
        then some (err, [], buf)
        else do (err, rest, buf) ← read_bytes count buf; some (err, out ++ rest, buf)

  -- The characters of the product name, written from `i` on, with `left` rounds to go: the array
  -- and the buffer. An error ends the loop.
  unfoldable pub read_name : ℕ → ℕ → List ℕ → Option Buf → Option (List ℕ × Option Buf)
  read_name zero i name buf = some (name, buf)
  read_name (suc left) i name buf = do
    (err, out, buf) ← read host native (u8 ∷ []) buf
    if not (is_ok err)
        then some (name, buf)
        else do name ← store_at name i (printable (get_or out 0 0)); read_name left (i + 1) name buf

  -- The status and the serial number; what remains.
  unfoldable pub read_status : ℕ → Option Buf → Option (Option (ℕ × ℕ) × ℕ × Option Buf)
  read_status remaining buf = if not (leb 6 remaining) then some (none, remaining, buf) else do
    (err, out, buf) ← read host little_endian (u16 ∷ u32 ∷ []) buf
    if not (is_ok err)
        then some (none, remaining, buf)
        else some (some (get_or out 0 0, get_or out 1 0), remaining - 6, buf)

  -- The name, which is read where its length is not 0 and less than what remains.
  unfoldable pub read_product_name : ℕ → Option Buf → Option (Option (List ℕ) × ℕ × Option Buf)
  read_product_name remaining buf = if remaining == 0 then some (none, remaining, buf) else do
    (err, out, buf) ← read host native (u8 ∷ []) buf
    if not (is_ok err && (ltb 0 (get_or out 0 0) && ltb (get_or out 0 0) remaining))
        then some (none, remaining, buf)
        else do
          (name, buf) ← read_name (min (get_or out 0 0) 255) 0 (replicate 256 0) buf
          name ← store_at name (get_or out 0 0) 0
          some (some (c_string name), remaining - (get_or out 0 0 + 1), buf)

  unfoldable pub read_device_state : ℕ → Option Buf → Option (Option ℕ × Option Buf)
  read_device_state remaining buf = if not (leb 1 remaining) then some (none, buf) else do
    (err, out, buf) ← read host native (u8 ∷ []) buf
    if not (is_ok err) then some (none, buf) else some (some (get_or out 0 0), buf)

  -- A CIP identity item of a length of 34 or more; `none` within the result is an error, which
  -- ends the loop over the items. 24 is what the source takes for the bytes that were read.
  unfoldable pub read_identity : ℕ → Option Buf → Option (PtkErr × Option Identity × Option Buf)
  read_identity item_length buf = do
    (err, version, buf) ← read host little_endian (u16 ∷ []) buf
    if not (is_ok err) then some (err, none, buf) else do
      (err, socket, buf) ← read host big_endian (s16 ∷ u16 ∷ []) buf
      if not (is_ok err) then some (err, none, buf) else do
        (err, addr, buf) ← read_bytes 4 buf
        if not (is_ok err) then some (err, none, buf) else do
          (err, padding, buf) ← read_bytes 8 buf
          if not (is_ok err) then some (err, none, buf) else do
            (err, out, buf) ← read host little_endian (u16 ∷ u16 ∷ u16 ∷ u8 ∷ u8 ∷ []) buf
            if not (is_ok err) then some (err, none, buf) else do
              (status, remaining, buf) ← read_status (item_length - 24) buf
              (name, remaining, buf) ← read_product_name remaining buf
              (state, buf) ← read_device_state remaining buf
              some (ok, some (identity_of version socket addr out status name state), buf)

  -- The items, with `left` rounds to go.
  unfoldable pub read_items : ℕ → Option Buf → Option (List Item × Option Buf)
  read_items zero buf = some ([], buf)
  read_items (suc left) buf = do
    (err, out, buf) ← read host little_endian (u16 ∷ u16 ∷ []) buf
    if not (is_ok err) then some ([], buf) else do
      let type_id = get_or out 0 0
      let item_length = get_or out 1 0
      elim ((type_id == cpf_type_cip_identity) && leb 34 item_length) [
        | true ↦ do
          (err, item, buf) ← read_identity item_length buf
          elim item [
            | none ↦ some ([], buf)
            | some i ↦ do (items, buf) ← read_items left buf; some (identity i ∷ items, buf)
          ]
        | false ↦ do
          (items, buf) ← read_items left (set_start buf (buf_size (get_start buf + item_length))).1
          some (skipped type_id item_length ∷ items, buf)
      ]

  -- The answer is PTK_OK on every path; the items are what was printed.
  unfoldable pub parse_list_identity_response :
      Option Buf → Option (PtkErr × List Item × Option Buf)
  parse_list_identity_response buf = do
    (err, out, buf) ← parse_eip_header host buf
    if not (is_ok err)
        then some (ok, [], buf)
        else if not (get_or out 0 0 == list_identity_cmd)
            || not (get_or out 3 0 == 0)
            || (get_or out 1 0 == 0)
        then some (ok, [], buf)
        else do
          (err, count, buf) ← read host little_endian (u16 ∷ []) buf
          if not (is_ok err)
              then some (ok, [], buf)
              else do (items, buf) ← read_items (get_or count 0 0) buf; some (ok, items, buf)
