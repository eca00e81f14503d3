-- ===== src/Modbus/Common.antt =====
-- modbus_common.c: function codes, PDU types and the validation of requests. The PDU types are
-- macros for `(__LINE__)` (modbus.h), which stands for the line where a type is used, not where
-- it is defined.
use Prim.Native.Nat.{bit_and}
use protocol_toolkit.Prelude.{
  ℕ, ◌+◌, ◌-◌, ◌<◌, ◌≤◌, Bool, true, false, ltb, ◌==◌, ◌||◌, if◌then◌else◌, ◌≡◌, refl, arith, ◌⊎◌,
}
use protocol_toolkit.Err.{PtkErr, ok, out_of_bounds, invalid_param}

abbrev pub fc_read_coils : ℕ
fc_read_coils = 0x01

abbrev pub fc_read_discrete_inputs : ℕ
fc_read_discrete_inputs = 0x02

abbrev pub fc_read_holding_registers : ℕ
fc_read_holding_registers = 0x03

abbrev pub fc_read_input_registers : ℕ
fc_read_input_registers = 0x04

abbrev pub fc_write_single_coil : ℕ
fc_write_single_coil = 0x05

abbrev pub fc_write_single_register : ℕ
fc_write_single_register = 0x06

abbrev pub fc_write_multiple_coils : ℕ
fc_write_multiple_coils = 0x0f

abbrev pub fc_write_multiple_registers : ℕ
fc_write_multiple_registers = 0x10

-- The numbers are the lines of modbus_common.c where the macros stand; the two types of a
-- conditional stand on one line.
unfoldable pub get_pdu_type_from_function_code : ℕ → Bool → ℕ
get_pdu_type_from_function_code fc is_request =
    if bit_and fc 0x80 == 0
    then if fc == fc_read_coils
      then if is_request then 12 else 12
      else if fc == fc_read_discrete_inputs
      then if is_request then 15 else 15
      else if fc == fc_read_holding_registers
      then if is_request then 18 else 18
      else if fc == fc_read_input_registers
      then if is_request then 21 else 21
      else if fc == fc_write_single_coil
      then if is_request then 24 else 24
      else if fc == fc_write_single_register
      then if is_request then 27 else 27
      else if fc == fc_write_multiple_coils
      then if is_request then 30 else 30
      else if fc == fc_write_multiple_registers
      then if is_request then 33 else 33
      else 0
    else 9

-- `address + quantity - 1` is an int, and quantity is not 0 there.
unfoldable pub validate_address_range : ℕ → ℕ → ℕ → PtkErr
validate_address_range address quantity max_address =
    if ltb max_address address
    then out_of_bounds
    else if quantity == 0
    then invalid_param
    else if ltb max_address (address + quantity - 1)
    then out_of_bounds
    else ok

unfoldable pub validate_quantity : ℕ → ℕ → PtkErr
validate_quantity quantity max_quantity =
    if quantity == 0 || ltb max_quantity quantity then invalid_param else ok

-- A range is accepted exactly when it is not empty and its last address is at most the largest;
-- an empty range at an address in bounds is PTK_ERR_INVALID_PARAM, any other range is
-- PTK_ERR_OUT_OF_BOUNDS.
pub validate_address_range_lem :
    (address quantity max_address : ℕ)
    → ((validate_address_range address quantity max_address ≡ ok)
        × (0 < quantity)
        × (address + quantity ≤ max_address + 1))
      ⊎ ((validate_address_range address quantity max_address ≡ invalid_param)
          × (quantity ≡ 0)
          × (address ≤ max_address))
      ⊎ ((validate_address_range address quantity max_address ≡ out_of_bounds)
          × (max_address + 1 < address + quantity + (1 - quantity)))
unfolding validate_address_range
validate_address_range_lem address quantity max_address = ground arith

-- A function code alone, below 0x80 or not, is given the same PDU type as a request and as a
-- response.
pub get_pdu_type_same :
    (fc : ℕ) → get_pdu_type_from_function_code fc true ≡ get_pdu_type_from_function_code fc false
unfolding get_pdu_type_from_function_code
get_pdu_type_same fc = refl
