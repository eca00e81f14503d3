-- ===== src/Modbus/Pdu/ExceptionResp/Laws.antt =====
-- modbus_create_exception_response makes responses that the send function accepts.
use Prim.Native.Nat.{bit_and, bit_or}
use protocol_toolkit.Prelude.{
  ℕ, ◌<◌, Bool, true, false, not, none, some, ◌==◌, ltb, if◌then◌else◌, ◌≡◌, refl, sym, arith, ◌⊎◌,
  inl, inr, Bool-cases,
}
use protocol_toolkit.Err.{ok, invalid_param}
use protocol_toolkit.Heap.{Grants, obtain}
use protocol_toolkit.Modbus.BitArray.{bit_of, with_bit}
use protocol_toolkit.Modbus.BitArray.Bits.{bit_of-with_bit, with_bit-lt}
use protocol_toolkit.Modbus.Pdu.{exception_resp}
use protocol_toolkit.Modbus.Pdu.Format.{IsTyped}
use protocol_toolkit.Modbus.Pdu.Send.{refusal}
use protocol_toolkit.Modbus.Pdu.ExceptionResp.{ExceptionResp, create, create_exception_response}

not-true : (x : Bool) → not x ≡ true → x ≡ false
not-true false h = refl
not-true true h = sym h

flag_set : (fc : ℕ) → fc < 256 → (bit_and (bit_or fc 0x80) 0x80 == 0) ≡ false
unfolding bit_of with_bit
flag_set fc h =
    not-true (bit_and (bit_or fc 0x80) 0x80 == 0)
      (bit_of-with_bit fc 7 7 true h (omega arith) (omega arith))

flagged-lt : (fc : ℕ) → fc < 256 → bit_or fc 0x80 < 256
unfolding with_bit
flagged-lt fc h = with_bit-lt fc 7 true h (omega arith)

-- The response to any function code, which is a byte, has fields in the range of their types where
-- the exception code is a byte; its function code is never refused by the send function, which
-- accepts it exactly for the exception codes 1 to 4. There is none where memory runs out.
pub create_exception_response_lem :
    (grants : Grants) (call fc code : ℕ)
    → fc < 256
    → code < 256
    → (create_exception_response grants call fc code ≡ none)
      ⊎ ((resp : ExceptionResp) × (create_exception_response grants call fc code ≡ some resp)
          × IsTyped exception_resp resp
          × (resp.exception_code ≡ code)
          × (refusal exception_resp resp
              ≡ (if code == 0 then invalid_param else if ltb code 5 then ok else invalid_param)))
unfolding create_exception_response create obtain
create_exception_response_lem grants call fc code h k =
    let typed : bit_or fc 0x80 < 256 = flagged-lt fc h in
    let flag : (bit_and (bit_or fc 0x80) 0x80 == 0) ≡ false = flag_set fc h in
    elim (Bool-cases (grants call 32)) [
      | inr no_ ↦ inl (ground arith)
      | inl yes_ ↦
          let resp : ExceptionResp = record {
            pdu_type = 26;
            exception_function_code = bit_or fc 0x80;
            exception_code = code;
          } in
          let made : create_exception_response grants call fc code ≡ some resp = ground arith in
          inr (resp, made, (typed, (k, tt)), refl, rw flag)
    ]
