-- ===== src/Eip/Device.antt =====
-- A CIP identity item as bytes, and that it is read as it was written.
use protocol_toolkit.Prelude.{
  ℕ, suc, ◌+◌, ◌-◌, ◌<◌, ◌≤◌, true, false, ◌&&◌, some, List, [], ◌∷◌, ◌++◌, ◌==◌, leb, ltb, set,
  store_at_lem, length, length-append, replicate, min, All, ◌≡◌, refl, ap, arith, append_assoc,
  append-nil,
}
use protocol_toolkit.Prelude.Bytes.{to_le}
use protocol_toolkit.Err.{ok}
use protocol_toolkit.Buf.{Buf}
use protocol_toolkit.Codec.{u8, u16, u32, s16, Endian, little_endian, big_endian, Host, type_size}
use protocol_toolkit.Codec.Words.{wire}
use protocol_toolkit.Eip.{
  read, read_bytes, printable, read_name, c_string, Identity, read_status, read_product_name,
  read_device_state, read_identity, identity_of,
}
use protocol_toolkit.Eip.Name.{IsPrintable}
use protocol_toolkit.Eip.Wire.{Holds, numbers, InRange, read-numbers}

wire_byte : (e : Endian) (v : ℕ) → v < 256 → wire e 1 v ≡ v ∷ []
unfolding wire to_le
wire_byte little_endian v h = ap (λ (x : ℕ). x ∷ []) (omega arith)
wire_byte big_endian v h = ap (λ (x : ℕ). x ∷ []) (omega arith)

set-append : (pre zs : List ℕ) (z c : ℕ) → set (pre ++ (z ∷ zs)) (length pre) c ≡ pre ++ (c ∷ zs)
set-append [] zs z c = refl
set-append (p ∷ pre) zs z c = ap (λ r. p ∷ r) (set-append pre zs z c)

printable_self : (c : ℕ) → IsPrintable c → printable c ≡ c
printable_self c h = ground arith

module _ (host : Host) (native : Endian) where
  read-one_byte :
      (v : ℕ) (rest : List ℕ) (b : Buf)
      → Holds b (v ∷ rest)
      → (b' : Buf) × (read host native (u8 ∷ []) (some b) ≡ some (ok, v ∷ [], some b'))
        × Holds b' rest
  unfolding type_size
  read-one_byte v rest b h =
      read-numbers host native u8 [] (v ∷ []) rest b (omega arith, tt) (h.bytes.0, tt)
        (rw (wire_byte native v h.bytes.0) h)

  read_bytes-held :
      (bs rest : List ℕ) (b : Buf)
      → Holds b (bs ++ rest)
      → (b' : Buf) × (read_bytes host native (length bs) (some b) ≡ some (ok, bs, some b'))
        × Holds b' rest
  unfolding read_bytes
  read_bytes-held [] rest b h = (b, refl, h)
  read_bytes-held (v ∷ bs) rest b h =
      let (b1, e1, h1) = read-one_byte v (bs ++ rest) b h in
      let (b2, e2, h2) = read_bytes-held bs rest b1 h1 in (b2, rw (e1, e2) refl, h2)

  read_name-held :
      (cs pre rest : List ℕ) (k : ℕ) (b : Buf)
      → All IsPrintable cs
      → Holds b (cs ++ rest)
      → (b' : Buf) × (read_name host native
            (length cs)
            (length pre)
            (pre ++ replicate (length cs + k) 0)
            (some b)
          ≡ some ((pre ++ cs) ++ replicate k 0, some b'))
        × Holds b' rest
  unfolding read_name
  read_name-held [] pre rest k b a h =
      let zero_k : 0 + k ≡ k = omega arith in (b, rw (append-nil pre, zero_k) refl, h)
  read_name-held (c ∷ cs) pre rest k b (p, a) h =
      let (b1, e1, h1) = read-one_byte c (cs ++ rest) b h in
      let (b2, e2, h2) = read_name-held cs (pre ++ (c ∷ [])) rest k b1 a h1 in
      let more : suc (length cs) + k ≡ suc (length cs + k) = omega arith in
      let zs = replicate (length cs + k) 0 in
      let room : length pre < length (pre ++ (0 ∷ zs)) =
        omega (arith, length-append pre (0 ∷ zs)) in
      let next : length (pre ++ (c ∷ [])) ≡ length pre + 1 = length-append pre (c ∷ []) in
      (
        b2,
        rw
            (
              more,
              e1,
              printable_self c p,
              store_at_lem (pre ++ (0 ∷ zs)) (length pre) c room,
              set-append pre zs 0 c,
            )
            (rw (next, append_assoc pre (c ∷ []) zs, append_assoc pre (c ∷ []) cs) at e2),
        h2,
      )

c_string-append : (cs zs : List ℕ) → All IsPrintable cs → c_string (cs ++ (0 ∷ zs)) ≡ cs
c_string-append [] zs a = refl
c_string-append (c ∷ cs) zs (p, a) =
    let nonzero : (c == 0) ≡ false = ground arith in rw (nonzero, c_string-append cs zs a) refl

-- What an item says of a device.
pub record Device : Type 0 where
  pub version : ℕ
  pub family : ℕ
  pub port : ℕ
  pub addr : List ℕ
  pub vendor : ℕ
  pub device_type : ℕ
  pub product : ℕ
  pub major : ℕ
  pub minor : ℕ
  pub status : ℕ
  pub serial : ℕ
  pub name : List ℕ
  pub state : ℕ

-- Every value is in the range of its field, the address has four bytes, and the name has between
-- 1 and 255 printable characters.
pub record IsDevice (d : Device) : Type 0 where
  pub version : InRange (u16 ∷ []) (d.version ∷ [])
  pub socket : InRange (s16 ∷ u16 ∷ []) (d.family ∷ d.port ∷ [])
  pub addr : length d.addr ≡ 4
  pub product :
      InRange
        (u16 ∷ u16 ∷ u16 ∷ u8 ∷ u8 ∷ [])
        (d.vendor ∷ d.device_type ∷ d.product ∷ d.major ∷ d.minor ∷ [])
  pub status : InRange (u16 ∷ u32 ∷ []) (d.status ∷ d.serial ∷ [])
  pub named : 0 < length d.name
  pub name_fits : length d.name ≤ 255
  pub name : All IsPrintable d.name

-- The bytes of the item behind its type and length, and what follows them.
abbrev pub device_bytes : Device → List ℕ → List ℕ
device_bytes d rest =
    numbers little_endian (u16 ∷ []) (d.version ∷ [])
    ++ (numbers big_endian (s16 ∷ u16 ∷ []) (d.family ∷ d.port ∷ [])
        ++ (d.addr
            ++ (replicate 8 0
                ++ (numbers little_endian (u16 ∷ u16 ∷ u16 ∷ u8 ∷ u8 ∷ [])
                      (d.vendor ∷ d.device_type ∷ d.product ∷ d.major ∷ d.minor ∷ [])
                    ++ (numbers little_endian (u16 ∷ u32 ∷ []) (d.status ∷ d.serial ∷ [])
                        ++ (length d.name ∷ (d.name ++ (d.state ∷ rest))))))))

abbrev pub device_length : Device → ℕ
device_length d = 34 + length d.name

-- What is shown of a device.
abbrev pub shown : Device → Identity
shown d =
    identity_of (d.version ∷ []) (d.family ∷ d.port ∷ []) d.addr
      (d.vendor ∷ d.device_type ∷ d.product ∷ d.major ∷ d.minor ∷ []) (some (d.status, d.serial))
      (some d.name) (some d.state)

module _ (host : Host) (native : Endian) where
  read_product_name-held :
      (name rest : List ℕ) (b : Buf)
      → 0 < length name
      → length name ≤ 255
      → All IsPrintable name
      → Holds b (length name ∷ (name ++ rest))
      → (b' : Buf) × (read_product_name host native (length name + 4) (some b)
          ≡ some (some name, 3, some b'))
        × Holds b' rest
  unfolding read_product_name
  read_product_name-held name rest b named fits a h =
      let n = length name in
      let (b1, e1, h1) = read-one_byte host native n (name ++ rest) b h in
      let (b2, e2, h2) = read_name-held host native name [] rest (suc (255 - n)) b1 a h1 in
      let some_left : (n + 4 == 0) ≡ false = ground arith in
      let long : (ltb 0 n && ltb n (n + 4)) ≡ true = ground arith in
      let whole : n + suc (255 - n) ≡ 256 = omega arith in
      let least : min n 255 ≡ n = omega arith in
      let e3 : read_name host native n 0 (replicate 256 0) (some b1)
          ≡ some (name ++ replicate (suc (255 - n)) 0, some b2) =
        rw whole at e2 in
      let room : n < length (name ++ replicate (suc (255 - n)) 0) =
        omega (arith, length-append name (replicate (suc (255 - n)) 0)) in
      let left : n + 4 - (n + 1) ≡ 3 = omega arith in
      (
        b2,
        rw (some_left, e1, long, least)
            (rw
              (
                e3,
                store_at_lem (name ++ replicate (suc (255 - n)) 0) n 0 room,
                set-append name (replicate (255 - n) 0) 0 0,
                c_string-append name (replicate (255 - n) 0) a,
                left,
              )
              refl),
        h2,
      )

  pub read_identity-held :
      (d : Device) (rest : List ℕ) (b : Buf)
      → IsDevice d
      → Holds b (device_bytes d rest)
      → (b' : Buf) × (read_identity host native (device_length d) (some b)
          ≡ some (ok, some (shown d), some b'))
        × Holds b' rest
  unfolding read_identity read_status read_device_state type_size
  read_identity-held d rest b w h =
      let n = length d.name in
      let status = d.status ∷ d.serial ∷ [] in
      let product = d.vendor ∷ d.device_type ∷ d.product ∷ d.major ∷ d.minor ∷ [] in
      let t6 : List ℕ = n ∷ (d.name ++ (d.state ∷ rest)) in
      let t5 : List ℕ = numbers little_endian (u16 ∷ u32 ∷ []) status ++ t6 in
      let t4 : List ℕ = numbers little_endian (u16 ∷ u16 ∷ u16 ∷ u8 ∷ u8 ∷ []) product ++ t5 in
      let t3 : List ℕ = replicate 8 0 ++ t4 in
      let t1 : List ℕ =
        numbers big_endian (s16 ∷ u16 ∷ []) (d.family ∷ d.port ∷ []) ++ (d.addr ++ t3) in
      let (b1, e1, h1) =
        read-numbers host little_endian u16 [] (d.version ∷ []) t1 b (omega arith, tt) w.version
          h in
      let (b2, e2, h2) =
        read-numbers host big_endian s16 (u16 ∷ []) (d.family ∷ d.port ∷ []) (d.addr ++ t3) b1
          (omega arith, (omega arith, tt)) w.socket h1 in
      let (b3, e3, h3) = read_bytes-held host native d.addr t3 b2 h2 in
      let (b4, e4, h4) = read_bytes-held host native (replicate 8 0) t4 b3 h3 in
      let (b5, e5, h5) =
        read-numbers host little_endian u16 (u16 ∷ u16 ∷ u8 ∷ u8 ∷ []) product t5 b4
          (omega arith, (omega arith, (omega arith, (omega arith, (omega arith, tt))))) w.product
          h4 in
      let (b6, e6, h6) =
        read-numbers host little_endian u16 (u32 ∷ []) status t6 b5 (omega arith, (omega arith, tt))
          w.status h5 in
      let (b7, e7, h7) =
        read_product_name-held d.name (d.state ∷ rest) b6 w.named w.name_fits w.name h6 in
      let (b8, e8, h8) = read-one_byte host native d.state rest b7 h7 in
      let e3' : read_bytes host native 4 (some b2) ≡ some (ok, d.addr, some b3) = rw w.addr at e3 in
      let more : leb 6 (34 + n - 24) ≡ true = ground arith in
      let left : 34 + n - 24 - 6 ≡ n + 4 = omega arith in
      (b8, rw (e1, e2, e3', e4, e5, more, e6, left, e7, e8) refl, h8)
