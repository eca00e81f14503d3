-- ===== src/Modbus/Pdu/Format.antt =====
-- The wire format of the messages of fixed length, byte by byte, and the same as fields of the
-- typed serialization.
use protocol_toolkit.Prelude.{
  ℕ, ◌/◌, ◌%◌, ◌<◌, List, [], ◌∷◌, map, length, ◌≡◌, refl, ap, ap₂, arith, All,
}
use protocol_toolkit.Prelude.Bytes.{to_le}
use protocol_toolkit.Codec.{BufType, u8, u16, type_size, Host, big_endian, cast_word}
use protocol_toolkit.Codec.Words.{wire}
use protocol_toolkit.Codec.Write.{IsScalar, Field, wire_fields}
use protocol_toolkit.Codec.RoundTrip.{field_types, casts}
use protocol_toolkit.Modbus.Pdu.{
  Kind, read_coils_req, read_discrete_inputs_req, read_holding_registers_req,
  read_input_registers_req, write_single_coil_req, write_single_coil_resp,
  write_single_register_req, write_single_register_resp, write_multiple_coils_resp,
  write_multiple_registers_resp, exception_resp, Object,
}

-- The values of the fields in the order of the wire, and the type that the base holds.
abbrev pub contents : (k : Kind) → Object k → List ℕ
contents read_coils_req p = p.function_code ∷ p.starting_address ∷ p.quantity_of_coils ∷ []
contents read_discrete_inputs_req p =
    p.function_code ∷ p.starting_address ∷ p.quantity_of_inputs ∷ []
contents read_holding_registers_req p =
    p.function_code ∷ p.starting_address ∷ p.quantity_of_registers ∷ []
contents read_input_registers_req p =
    p.function_code ∷ p.starting_address ∷ p.quantity_of_registers ∷ []
contents write_single_coil_req p = p.function_code ∷ p.output_address ∷ p.output_value ∷ []
contents write_single_coil_resp p = p.function_code ∷ p.output_address ∷ p.output_value ∷ []
contents write_single_register_req p = p.function_code ∷ p.register_address ∷ p.register_value ∷ []
contents write_single_register_resp p = p.function_code ∷ p.register_address ∷ p.register_value ∷ []
contents write_multiple_coils_resp p =
    p.function_code ∷ p.starting_address ∷ p.quantity_of_outputs ∷ []
contents write_multiple_registers_resp p =
    p.function_code ∷ p.starting_address ∷ p.quantity_of_registers ∷ []
contents exception_resp p = p.exception_function_code ∷ p.exception_code ∷ []

abbrev pub base : (k : Kind) → Object k → ℕ
base read_coils_req p = p.pdu_type
base read_discrete_inputs_req p = p.pdu_type
base read_holding_registers_req p = p.pdu_type
base read_input_registers_req p = p.pdu_type
base write_single_coil_req p = p.pdu_type
base write_single_coil_resp p = p.pdu_type
base write_single_register_req p = p.pdu_type
base write_single_register_resp p = p.pdu_type
base write_multiple_coils_resp p = p.pdu_type
base write_multiple_registers_resp p = p.pdu_type
base exception_resp p = p.pdu_type

-- A message of three fields is a byte and two big-endian 16-bit numbers; an exception two bytes.
pub data Width : Type 0 where
  byte : Width
  word : Width

abbrev pub buf_type : Width → BufType
buf_type byte = u8
buf_type word = u16

abbrev pub layout : Kind → List Width
layout exception_resp = byte ∷ byte ∷ []
layout _ = byte ∷ word ∷ word ∷ []

abbrev pub encode : List Width → List ℕ → List ℕ
encode (byte ∷ ts) (v ∷ vs) = v ∷ encode ts vs
encode (word ∷ ts) (v ∷ vs) = v / 256 ∷ v % 256 ∷ encode ts vs
encode _ _ = []

abbrev pub encoding : (k : Kind) → Object k → List ℕ
encoding k p = encode (layout k) (contents k p)

-- Every value is one of its field's type.
abbrev pub InRange : List Width → List ℕ → Type 0
InRange (byte ∷ ts) (v ∷ vs) = (v < 256) × InRange ts vs
InRange (word ∷ ts) (v ∷ vs) = (v < 65536) × InRange ts vs
InRange _ _ = Unit

abbrev pub IsTyped : (k : Kind) → Object k → Type 0
IsTyped k p = InRange (layout k) (contents k p)

abbrev pub zip : List Width → List ℕ → List Field
zip (t ∷ ts) (v ∷ vs) = (buf_type t, v) ∷ zip ts vs
zip _ _ = []

abbrev pub fields : (k : Kind) → Object k → List Field
fields k p = zip (layout k) (contents k p)

wire_byte : (v : ℕ) → v < 256 → wire big_endian 1 (v % 256) ≡ v ∷ []
unfolding wire to_le
wire_byte v h = ap (λ (x : ℕ). x ∷ []) (omega arith)

wire_word : (v : ℕ) → v < 65536 → wire big_endian 2 (v % 65536) ≡ v / 256 ∷ v % 256 ∷ []
unfolding wire to_le
wire_word v h = ap₂ (λ (x y : ℕ). x ∷ y ∷ []) (omega arith) (omega arith)

pub zip-IsScalar : (ts : List Width) (vs : List ℕ) → All (λ f. IsScalar f.0) (zip ts vs)
unfolding type_size
zip-IsScalar [] vs = tt
zip-IsScalar (byte ∷ ts) [] = tt
zip-IsScalar (word ∷ ts) [] = tt
zip-IsScalar (byte ∷ ts) (v ∷ vs) = (omega arith, zip-IsScalar ts vs)
zip-IsScalar (word ∷ ts) (v ∷ vs) = (omega arith, zip-IsScalar ts vs)

module _ (host : Host) where
  pub wire_fields-zip :
      (ts : List Width) (vs : List ℕ)
      → InRange ts vs
      → wire_fields host big_endian (zip ts vs) ≡ encode ts vs
  unfolding type_size cast_word
  wire_fields-zip [] vs r = refl
  wire_fields-zip (byte ∷ ts) [] r = refl
  wire_fields-zip (word ∷ ts) [] r = refl
  wire_fields-zip (byte ∷ ts) (v ∷ vs) (r, rs) = rw (wire_byte v r, wire_fields-zip ts vs rs)
  wire_fields-zip (word ∷ ts) (v ∷ vs) (r, rs) = rw (wire_word v r, wire_fields-zip ts vs rs)

  pub casts-zip :
      (ts : List Width) (vs : List ℕ)
      → InRange ts vs
      → length ts ≡ length vs
      → casts host big_endian (zip ts vs) ≡ vs
  unfolding type_size cast_word
  casts-zip [] [] r l = refl
  casts-zip [] (v ∷ vs) r l = absurd (omega arith)
  casts-zip (t ∷ ts) [] r l = absurd (omega arith)
  casts-zip (byte ∷ ts) (v ∷ vs) (r, rs) l =
      ap₂ ◌∷◌ (omega arith) (casts-zip ts vs rs (omega arith))
  casts-zip (word ∷ ts) (v ∷ vs) (r, rs) l =
      ap₂ ◌∷◌ (omega arith) (casts-zip ts vs rs (omega arith))

pub field_types-zip :
    (ts : List Width) (vs : List ℕ)
    → length ts ≡ length vs
    → field_types (zip ts vs) ≡ map buf_type ts
field_types-zip [] [] l = refl
field_types-zip [] (v ∷ vs) l = refl
field_types-zip (t ∷ ts) [] l = absurd (omega arith)
field_types-zip (t ∷ ts) (v ∷ vs) l = ap (λ r. buf_type t ∷ r) (field_types-zip ts vs (omega arith))

pub length-contents : (k : Kind) (p : Object k) → length (layout k) ≡ length (contents k p)
length-contents read_coils_req p = refl
length-contents read_discrete_inputs_req p = refl
length-contents read_holding_registers_req p = refl
length-contents read_input_registers_req p = refl
length-contents write_single_coil_req p = refl
length-contents write_single_coil_resp p = refl
length-contents write_single_register_req p = refl
length-contents write_single_register_resp p = refl
length-contents write_multiple_coils_resp p = refl
length-contents write_multiple_registers_resp p = refl
length-contents exception_resp p = refl
