-- ===== src/Eip/RoundTrip.antt =====
-- A List Identity response is read as it was written.
use protocol_toolkit.Prelude.{
  ℕ, ◌+◌, ◌%◌, ◌^◌, ◌<◌, ◌≤◌, true, false, some, List, [], ◌∷◌, ◌++◌, map, ◌==◌, leb, length,
  length-append, drop_exact, drop, All, ◌≡◌, ◌≢◌, refl, ap, ◌∙◌, arith, le→ltb, ==-false_of_ne,
}
use protocol_toolkit.Prelude.Bytes.{IsByte}
use protocol_toolkit.Err.{ok}
use protocol_toolkit.Buf.{Buf, buf_size, get_start, set_start}
use protocol_toolkit.Buf.Inv.{pending, length-pending}
use protocol_toolkit.Codec.{u16, u32, u64, Endian, little_endian, Host, type_size}
use protocol_toolkit.Codec.Read.{advanced, advanced-IsValid, pending-advanced}
use protocol_toolkit.Eip.{
  Item, identity, skipped, cpf_type_cip_identity, list_identity_cmd, read_items, parse_eip_header,
  parse_list_identity_response,
}
use protocol_toolkit.Eip.Wire.{Holds, numbers, InRange, read-numbers, All-append_right}
use protocol_toolkit.Eip.Device.{
  Device, IsDevice, device_bytes, device_length, shown, read_identity-held,
}

-- An item of a response: a device, or an item of another type.
pub data Entry : Type 0 where
  device : Device → Entry
  other : ℕ → List ℕ → Entry

abbrev pub IsEntry : Entry → Type 0
IsEntry (device d) = IsDevice d
IsEntry (other type_id bytes) =
    (type_id < 65536) × (type_id ≢ cpf_type_cip_identity) × (length bytes < 65536)

-- The bytes of items, and what follows them.
abbrev pub entries_bytes : List Entry → List ℕ → List ℕ
entries_bytes [] rest = rest
entries_bytes (device d ∷ es) rest =
    numbers little_endian (u16 ∷ u16 ∷ []) (cpf_type_cip_identity ∷ device_length d ∷ [])
    ++ device_bytes d (entries_bytes es rest)
entries_bytes (other type_id bytes ∷ es) rest =
    numbers little_endian (u16 ∷ u16 ∷ []) (type_id ∷ length bytes ∷ [])
    ++ (bytes ++ entries_bytes es rest)

abbrev pub shown_entry : Entry → Item
shown_entry (device d) = identity (shown d)
shown_entry (other type_id bytes) = skipped type_id (length bytes)

skip-held :
    (bytes rest : List ℕ) (b : Buf)
    → Holds b (bytes ++ rest)
    → (b' : Buf) × ((set_start (some b) (buf_size (get_start (some b) + length bytes))).1 ≡ some b')
      × Holds b' rest
unfolding set_start get_start
skip-held bytes rest b h =
    let enough : length bytes ≤ length (pending b) =
      omega (arith, ap length h.held, length-append bytes rest) in
    let size = length-pending b h.valid in
    let inside : b.start + length bytes ≤ b.data_len =
      omega (arith, size, enough, h.valid.end_in, h.valid.ordered) in
    let fits : (b.start + length bytes) % 2 ^ 16 ≡ b.start + length bytes =
      omega (arith, inside, h.valid.small) in
    (
      advanced b (length bytes),
      rw (fits, le→ltb b.data_len (b.start + length bytes) inside) refl,
      record {
        valid = advanced-IsValid b (length bytes) h.valid enough;
        bytes = All-append_right IsByte bytes rest h.bytes;
        held =
            pending-advanced b (length bytes)
            ∙ ap (drop (length bytes)) h.held
            ∙ drop_exact (length bytes) bytes rest refl;
      },
    )

module _ (host : Host) (native : Endian) where
  read_items-held :
      (es : List Entry) (rest : List ℕ) (b : Buf)
      → All IsEntry es
      → Holds b (entries_bytes es rest)
      → (b' : Buf) × (read_items host native (length es) (some b)
          ≡ some (map shown_entry es, some b'))
        × Holds b' rest
  unfolding read_items type_size
  read_items-held [] rest b a h = (b, refl, h)
  read_items-held (device d ∷ es) rest b (w, a) h =
      let fits : device_length d < 65536 = omega (arith, w.name_fits) in
      let (b1, e1, h1) =
        read-numbers host little_endian u16 (u16 ∷ [])
          (cpf_type_cip_identity ∷ device_length d ∷ []) (device_bytes d (entries_bytes es rest)) b
          (omega arith, (omega arith, tt)) (omega arith, (omega arith, tt)) h in
      let (b2, e2, h2) = read_identity-held host native d (entries_bytes es rest) b1 w h1 in
      let (b3, e3, h3) = read_items-held es rest b2 a h2 in
      let long : leb 34 (device_length d) ≡ true = ground arith in
      (b3, rw (e1, long, e2, e3) refl, h3)
  read_items-held (other type_id bytes ∷ es) rest b ((t, ne, l), a) h =
      let (b1, e1, h1) =
        read-numbers host little_endian u16 (u16 ∷ []) (type_id ∷ length bytes ∷ [])
          (bytes ++ entries_bytes es rest) b (omega arith, (omega arith, tt))
          (omega arith, (omega arith, tt)) h in
      let (b2, e2, h2) = skip-held bytes (entries_bytes es rest) b1 h1 in
      let (b3, e3, h3) = read_items-held es rest b2 a h2 in
      (b3, rw (e1, ==-false_of_ne type_id cpf_type_cip_identity ne, e2, e3) refl, h3)

  -- A response with the command and the status of a List Identity response and a length other than
  -- 0, whose items are devices and items of other types in any order, is read as those items: each
  -- device with its address, its numbers, its whole name and its state, however many there are.
  pub parse-response :
      (len session context options : ℕ) (es : List Entry) (rest : List ℕ) (b : Buf)
      → 0 < len
      → InRange
          (u16 ∷ u16 ∷ u32 ∷ u32 ∷ u64 ∷ u32 ∷ [])
          (list_identity_cmd ∷ len ∷ session ∷ 0 ∷ context ∷ options ∷ [])
      → length es < 65536
      → All IsEntry es
      → Holds b (
          numbers little_endian
            (u16 ∷ u16 ∷ u32 ∷ u32 ∷ u64 ∷ u32 ∷ [])
            (list_identity_cmd ∷ len ∷ session ∷ 0 ∷ context ∷ options ∷ [])
          ++ (numbers little_endian (u16 ∷ []) (length es ∷ []) ++ entries_bytes es rest))
      → (b' : Buf) × (parse_list_identity_response host native (some b)
          ≡ some (ok, map shown_entry es, some b'))
        × Holds b' rest
  unfolding parse_list_identity_response parse_eip_header type_size
  parse-response len session context options es rest b l r c a h =
      let (b1, e1, h1) =
        read-numbers host little_endian u16 (u16 ∷ u32 ∷ u32 ∷ u64 ∷ u32 ∷ [])
          (list_identity_cmd ∷ len ∷ session ∷ 0 ∷ context ∷ options ∷ [])
          (numbers little_endian (u16 ∷ []) (length es ∷ []) ++ entries_bytes es rest) b
          (
            omega arith,
            (omega arith, (omega arith, (omega arith, (omega arith, (omega arith, tt))))),
          )
          r h in
      let (b2, e2, h2) =
        read-numbers host little_endian u16 [] (length es ∷ []) (entries_bytes es rest) b1
          (omega arith, tt) (c, tt) h1 in
      let (b3, e3, h3) = read_items-held es rest b2 a h2 in
      let nonempty : (len == 0) ≡ false = ground arith in (b3, rw (e1, nonempty, e2, e3) refl, h3)
