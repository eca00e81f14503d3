-- ===== src/Eip/Safe.antt =====
-- Whatever bytes a response has, reading it stays inside its block and comes to an end.
use protocol_toolkit.Prelude.{
  ℕ, zero, suc, ◌+◌, ◌-◌, ◌<◌, ◌≤◌, not, ◌&&◌, ◌||◌, Option, none, some, List, [], ◌∷◌, ltb, leb,
  ◌==◌, get_or, replicate, min, store_at_lem, length, set, All, get_elem?-set_self, ◌≡◌, refl,
  arith, ◌⊎◌, inl, inr, dec_lt, lt→ltb, le→ltb, Bool-cases,
}
use protocol_toolkit.Err.{PtkErr, ok, buffer_too_small, is_ok}
use protocol_toolkit.Buf.{Buf, buf_size, get_start, set_start}
use protocol_toolkit.Codec.{
  u8, u16, u32, u64, s16, Endian, little_endian, big_endian, Host, type_size,
}
use protocol_toolkit.Eip.{
  identity_of, Identity, Item, identity, skipped, c_string, read_bytes, read_status,
  read_product_name, read_device_state, read_identity, read_items, parse_eip_header,
  parse_list_identity_response, list_identity_cmd, cpf_type_cip_identity,
}
use protocol_toolkit.Eip.Reads.{IsReady, read-cases, read-byte, read-word}
use protocol_toolkit.Eip.Name.{
  IsName-set, blank-IsName, c_string-bound, c_string-IsPrintable, IsShown, read_name_lem,
}

-- What holds of an item that is shown.
abbrev pub IsItem : Item → Type 0
IsItem (identity i) = IsShown i.product_name
IsItem (skipped type_id item_length) = Unit

module _ (host : Host) (native : Endian) where
  read_status_lem :
      (remaining : ℕ) (b : Buf)
      → IsReady b
      → (status : Option (ℕ × ℕ)) × (left : ℕ) × (b' : Buf) × (read_status host native remaining
            (some b)
          ≡ some (status, left, some b'))
        × IsReady b'
  unfolding read_status type_size
  read_status_lem remaining b r = elim (Bool-cases (leb 6 remaining)) [
    | inr e ↦ (none, remaining, b, rw e refl, r)
    | inl e ↦
        elim (read-cases host little_endian u16 (u32 ∷ []) b (omega arith, (omega arith, tt)) r) [
          | inl (out, b', f, r') ↦
              (some (get_or out 0 0, get_or out 1 0), remaining - 6, b', rw (e, f) refl, r')
          | inr (out, f) ↦ (none, remaining, b, rw (e, f) refl, r)
        ]
  ]

  read_product_name_lem :
      (remaining : ℕ) (b : Buf)
      → IsReady b
      → (name : Option (List ℕ)) × (left : ℕ) × (b' : Buf) × (read_product_name host native
            remaining
            (some b)
          ≡ some (name, left, some b'))
        × IsShown name
        × IsReady b'
  unfolding read_product_name
  read_product_name_lem remaining b r = elim (Bool-cases (remaining == 0)) [
    | inl z ↦ (none, remaining, b, rw z refl, tt, r)
    | inr z ↦ elim (read-byte host native b r) [
      | inr (out, e) ↦ (none, remaining, b, rw (z, e) refl, tt, r)
      | inl (v, b', l, e, r') ↦ elim (Bool-cases (ltb 0 v && ltb v remaining)) [
        | inr f ↦ (none, remaining, b', rw (z, e, f) refl, tt, r')
        | inl f ↦
            let (name, b'', e', n, r'') =
              read_name_lem host native (min v 255) 0 (replicate 256 0) b' (omega arith)
                blank-IsName r' in
            let inside : v < length name = omega (arith, n.size) in
            let name' = set name v 0 in
            (
              some (c_string name'),
              remaining - (v + 1),
              b'',
              rw (z, e, f, e', store_at_lem name v 0 inside) refl,
              (
                omega (arith, c_string-bound name' v (get_elem?-set_self name v 0 inside)),
                c_string-IsPrintable name' (IsName-set name v 0 n (inl refl)).chars,
              ),
              r'',
            )
      ]
    ]
  ]

  read_device_state_lem :
      (remaining : ℕ) (b : Buf)
      → IsReady b
      → (state : Option ℕ) × (b' : Buf) × (read_device_state host native remaining (some b)
          ≡ some (state, some b'))
        × IsReady b'
  unfolding read_device_state
  read_device_state_lem remaining b r = elim (Bool-cases (leb 1 remaining)) [
    | inr e ↦ (none, b, rw e refl, r)
    | inl e ↦ elim (read-byte host native b r) [
      | inr (out, f) ↦ (none, b, rw (e, f) refl, r)
      | inl (v, b', l, f, r') ↦ (some v, b', rw (e, f) refl, r')
    ]
  ]

  read_bytes_lem :
      (count : ℕ) (b : Buf)
      → IsReady b
      → (err : PtkErr) × (out : List ℕ) × (b' : Buf) × (read_bytes host native count (some b)
          ≡ some (err, out, some b'))
        × IsReady b'
  unfolding read_bytes
  read_bytes_lem zero b r = (ok, [], b, refl, r)
  read_bytes_lem (suc count) b r = elim (read-byte host native b r) [
    | inr (out, e) ↦ (buffer_too_small, [], b, rw e refl, r)
    | inl (v, b', l, e, r') ↦
        let (err, rest, b'', f, r'') = read_bytes_lem count b' r' in
        (err, v ∷ rest, b'', rw (e, f) refl, r'')
  ]

  read_identity_lem :
      (item_length : ℕ) (b : Buf)
      → IsReady b
      → ((err : PtkErr) × (b' : Buf) × (read_identity host native item_length (some b)
            ≡ some (err, none, some b'))
          × IsReady b')
        ⊎ ((i : Identity) × (b' : Buf) × (read_identity host native item_length (some b)
              ≡ some (ok, some i, some b'))
            × IsShown i.product_name
            × IsReady b')
  unfolding read_identity type_size
  read_identity_lem item_length b r =
      elim (read-cases host little_endian u16 [] b (omega arith, tt) r) [
        | inr (out, e) ↦ inl (buffer_too_small, b, rw e refl, r)
        | inl (version, b1, e1, r1) ↦
            elim (read-cases host big_endian s16 (u16 ∷ []) b1 (omega arith, (omega arith, tt))
              r1) [
                | inr (out, e) ↦ inl (buffer_too_small, b1, rw (e1, e) refl, r1)
                | inl (socket, b2, e2, r2) ↦
                    let (err3, addr, b3, e3, r3) = read_bytes_lem 4 b2 r2 in
                    elim (Bool-cases (is_ok err3)) [
                      | inr f ↦ inl (err3, b3, rw (e1, e2, e3, f) refl, r3)
                      | inl f3 ↦
                          let (err4, padding, b4, e4, r4) = read_bytes_lem 8 b3 r3 in
                          elim (Bool-cases (is_ok err4)) [
                            | inr f ↦ inl (err4, b4, rw (e1, e2, e3, f3, e4, f) refl, r4)
                            | inl f4 ↦
                                elim (read-cases host little_endian u16 (u16 ∷ u16 ∷ u8 ∷ u8 ∷ [])
                                  b4
                                  (
                                    omega arith,
                                    (omega arith, (omega arith, (omega arith, (omega arith, tt)))),
                                  )
                                  r4) [
                                    | inr (out, e) ↦ inl (
                                      buffer_too_small,
                                      b4,
                                      rw (e1, e2, e3, f3, e4, f4, e) refl,
                                      r4,
                                    )
                                    | inl (out, b5, e5, r5) ↦
                                        let (status, left, b6, e6, r6) =
                                          read_status_lem (item_length - 24) b5 r5 in
                                        let (name, left', b7, e7, n, r7) =
                                          read_product_name_lem left b6 r6 in
                                        let (state, b8, e8, r8) =
                                          read_device_state_lem left' b7 r7 in
                                        inr (
                                          identity_of version socket addr out status name state,
                                          b8,
                                          rw (e1, e2, e3, f3, e4, f4, e5, e6, e7, e8) refl,
                                          n,
                                          r8,
                                        )
                                  ]
                          ]
                    ]
              ]
      ]

  -- Skipping an item, which may move the start back: a cursor has 16 bits.
  set_start_lem :
      (b : Buf) (n : ℕ) → IsReady b → (b' : Buf) × ((set_start (some b) n).1 ≡ some b') × IsReady b'
  unfolding set_start
  set_start_lem b n r = elim (dec_lt b.data_len n) [
    | yes l ↦ (b, rw (lt→ltb b.data_len n l) refl, r)
    | no l ↦ (
      record b { start = n },
      rw (le→ltb b.data_len n (omega arith)) refl,
      record { safe = omega (arith, r.safe.block); bytes = r.bytes },
    )
  ]

  read_items_lem :
      (left : ℕ) (b : Buf)
      → IsReady b
      → (items : List Item) × (b' : Buf) × (read_items host native left (some b)
          ≡ some (items, some b'))
        × (length items ≤ left)
        × All IsItem items
        × IsReady b'
  unfolding read_items type_size
  read_items_lem zero b r = ([], b, refl, omega arith, tt, r)
  read_items_lem (suc left) b r =
      elim (read-cases host little_endian u16 (u16 ∷ []) b (omega arith, (omega arith, tt)) r) [
        | inr (out, e) ↦ ([], b, rw e refl, omega arith, tt, r)
        | inl (out, b1, e1, r1) ↦
            let type_id = get_or out 0 0 in
            let item_length = get_or out 1 0 in
            elim (Bool-cases ((type_id == cpf_type_cip_identity) && leb 34 item_length)) [
              | inr f ↦
                  let (b2, e2, r2) =
                    set_start_lem b1 (buf_size (get_start (some b1) + item_length)) r1 in
                  let (items, b3, e3, l, a, r3) = read_items_lem left b2 r2 in
                  (
                    skipped type_id item_length ∷ items,
                    b3,
                    rw (e1, f, e2, e3) refl,
                    omega arith,
                    (tt, a),
                    r3,
                  )
              | inl f ↦ elim (read_identity_lem item_length b1 r1) [
                | inl (err, b2, e2, r2) ↦ ([], b2, rw (e1, f, e2) refl, omega arith, tt, r2)
                | inr (i, b2, e2, n, r2) ↦
                    let (items, b3, e3, l, a, r3) = read_items_lem left b2 r2 in
                    (identity i ∷ items, b3, rw (e1, f, e2, e3) refl, omega arith, (n, a), r3)
              ]
            ]
      ]

  -- Whatever bytes a response has, parse_list_identity_response comes to an end, reads and writes
  -- nothing outside the block of the buffer and the array of a name, and answers PTK_OK; every
  -- name that is shown has at most 255 characters, all of them printable, and there are at most
  -- 65535 items.
  pub parse_list_identity_response_lem :
      (b : Buf)
      → IsReady b
      → (items : List Item) × (b' : Buf) × (parse_list_identity_response host native (some b)
          ≡ some (ok, items, some b'))
        × (length items ≤ 65535)
        × All IsItem items
        × IsReady b'
  unfolding parse_list_identity_response parse_eip_header type_size
  parse_list_identity_response_lem b r =
      elim (read-cases host little_endian u16 (u16 ∷ u32 ∷ u32 ∷ u64 ∷ u32 ∷ []) b
        (omega arith, (omega arith, (omega arith, (omega arith, (omega arith, (omega arith, tt))))))
        r) [
          | inr (out, e) ↦ ([], b, rw e refl, omega arith, tt, r)
          | inl (out, b1, e1, r1) ↦
              elim (Bool-cases (
                not (get_or out 0 0 == list_identity_cmd)
                || not (get_or out 3 0 == 0)
                || (get_or out 1 0 == 0))) [
                  | inl f ↦ ([], b1, rw (e1, f) refl, omega arith, tt, r1)
                  | inr f ↦ elim (read-word host little_endian b1 r1) [
                    | inr (out, e) ↦ ([], b1, rw (e1, f, e) refl, omega arith, tt, r1)
                    | inl (count, b2, l, e2, r2) ↦
                        let (items, b3, e3, m, a, r3) = read_items_lem count b2 r2 in
                        (items, b3, rw (e1, f, e2, e3) refl, omega arith, a, r3)
                  ]
                ]
        ]
