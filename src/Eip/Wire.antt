-- ===== src/Eip/Wire.antt =====
-- A response as bytes: consecutive numbers, and how they are read from a buffer that holds them.
use protocol_toolkit.Prelude.{
  ℕ, ◌+◌, ◌^◌, ◌<◌, ◌≤◌, some, List, [], ◌∷◌, ◌++◌, drop, take_exact, drop_exact, length,
  length-append, All, ◌≡◌, refl, ap, ap₂, ◌∙◌, arith, inl, inr, append_assoc, length-map,
}
use protocol_toolkit.Prelude.Bytes.{IsByte}
use protocol_toolkit.Err.{ok}
use protocol_toolkit.Buf.{Buf}
use protocol_toolkit.Buf.Inv.{IsValid, pending}
use protocol_toolkit.Codec.{BufType, Endian, Host, type_size}
use protocol_toolkit.Codec.Words.{wire, length-wire, unwire-wire}
use protocol_toolkit.Codec.Read.{slot_arg, total_size, field_values, advanced, deserialize_lem}
use protocol_toolkit.Codec.Write.{IsScalar}
use protocol_toolkit.Modbus.Message.{ptk_buf_deserialize}
use protocol_toolkit.Eip.{read}

-- The buffer has these bytes pending.
pub record Holds (b : Buf) (bs : List ℕ) : Type 0 where
  pub valid : IsValid b
  pub bytes : All IsByte bs
  pub held : pending b ≡ bs

-- The bytes of numbers, one after the other.
abbrev pub numbers : Endian → List BufType → List ℕ → List ℕ
numbers endian (t ∷ ts) (v ∷ vs) = wire endian (type_size t) v ++ numbers endian ts vs
numbers endian _ _ = []

-- As many numbers as types, each one of its type.
abbrev pub InRange : List BufType → List ℕ → Type 0
InRange [] [] = Unit
InRange (t ∷ ts) (v ∷ vs) = (v < 256 ^ type_size t) × InRange ts vs
InRange _ _ = ⊥

module _ (endian : Endian) where
  length-numbers :
      (ts : List BufType) (vs : List ℕ)
      → InRange ts vs
      → length (numbers endian ts vs) ≡ total_size ts
  length-numbers [] [] r = refl
  length-numbers [] (v ∷ vs) r = absurd r
  length-numbers (t ∷ ts) [] r = absurd r
  length-numbers (t ∷ ts) (v ∷ vs) (r, rs) =
      length-append (wire endian (type_size t) v) (numbers endian ts vs)
      ∙ ap₂ (λ m n. m + n) (length-wire endian (type_size t) v) (length-numbers ts vs rs)

  field_values-numbers :
      (ts : List BufType) (vs rest : List ℕ)
      → InRange ts vs
      → field_values endian ts (numbers endian ts vs ++ rest) ≡ vs
  field_values-numbers [] [] rest r = refl
  field_values-numbers [] (v ∷ vs) rest r = absurd r
  field_values-numbers (t ∷ ts) [] rest r = absurd r
  field_values-numbers (t ∷ ts) (v ∷ vs) rest (r, rs) =
      let w = wire endian (type_size t) v in
      let size = length-wire endian (type_size t) v in
      rw
        (
          append_assoc w (numbers endian ts vs) rest,
          take_exact (type_size t) w (numbers endian ts vs ++ rest) size,
          drop_exact (type_size t) w (numbers endian ts vs ++ rest) size,
          unwire-wire endian (type_size t) v r,
          field_values-numbers ts vs rest rs,
        )
        refl

pub All-append_right : (P : ℕ → Type 0) (xs ys : List ℕ) → All P (xs ++ ys) → All P ys
All-append_right P [] ys a = a
All-append_right P (x ∷ xs) ys (h, a) = All-append_right P xs ys a

module _ (host : Host) (endian : Endian) where
  pub read-numbers :
      (t : BufType) (ts : List BufType) (vs rest : List ℕ) (b : Buf)
      → All IsScalar (t ∷ ts)
      → InRange (t ∷ ts) vs
      → Holds b (numbers endian (t ∷ ts) vs ++ rest)
      → (b' : Buf) × (read host endian (t ∷ ts) (some b) ≡ some (ok, vs, some b')) × Holds b' rest
  unfolding ptk_buf_deserialize
  read-numbers t ts vs rest b s r h =
      let front = numbers endian (t ∷ ts) vs in
      let size : length front ≡ total_size (t ∷ ts) = length-numbers endian (t ∷ ts) vs r in
      let enough : total_size (t ∷ ts) ≤ length (pending b) =
        omega (arith, ap length h.held, length-append front rest, size) in
      elim (deserialize_lem host endian (t ∷ ts) b h.valid s (rw h.held h.bytes)) [
        | inr (short, r) ↦ absurd (omega (arith, short, enough))
        | inl (e', e, v', left) ↦ (
          advanced b (total_size (t ∷ ts)),
          rw
              (
                length-map slot_arg (t ∷ ts),
                e,
                h.held,
                field_values-numbers endian (t ∷ ts) vs rest r,
              )
              refl,
          record {
            valid = v';
            bytes = All-append_right IsByte front rest h.bytes;
            held =
                left
                ∙ ap (drop (total_size (t ∷ ts))) h.held
                ∙ drop_exact (total_size (t ∷ ts)) front rest size;
          },
        )
      ]
