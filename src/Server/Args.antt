-- ===== src/Server/Args.antt =====
-- parse_arguments of examples/modbus/server/modbus_server_threaded.c.
use mathlib.Core.Path.{subst}
use protocol_toolkit.Prelude.{
  ℕ, zero, suc, ◌≤◌, Bool, true, Option, none, some, List, [], ◌∷◌, ltb, if◌then◌else◌, ◌>>=◌,
  get_elem?, le→ltb, ◌≡◌, refl, arith, All, none-ne-some, Option-cases, inl, inr,
}
use protocol_toolkit.Config.{
  Field, FieldType, string, uint16, Value, text, number, flag, Text, Answer, Result, done,
  help_shown, failed, LongOption, long_options, ptk_config_parse,
}
use protocol_toolkit.Config.Parse.{Fits, Fits-some, IsTyped, HasArgument, ptk_config_parse_lem}

abbrev field : ℕ → ℕ → FieldType → Field
field name short type = record { name = name; short_name = short; type = type; has_target = true }

-- listen-addr, and the numbers of holding registers, input registers, coils and discrete inputs.
abbrev pub server_fields : List Field
server_fields =
    field 0 0x6c string
    ∷ field 1 0 uint16
    ∷ field 2 0 uint16
    ∷ field 3 0 uint16
    ∷ field 4 0 uint16
    ∷ []

module _ {Word : Type 0} where
  abbrev pub defaults : Word → List (Value Word)
  defaults addr = text addr ∷ number 100 ∷ number 100 ∷ number 100 ∷ number 100 ∷ []

  abbrev pub number_at : List (Value Word) → ℕ → ℕ
  number_at values i = elim (get_elem? values i) [
    | none ↦ 0
    | some (number n) ↦ n
    | some (text w) ↦ 0
    | some (flag b) ↦ 0
  ]

  -- The four range checks.
  unfoldable pub check_ranges : List (Value Word) → Result
  check_ranges values =
      if ltb 65535 (number_at values 1)
      then failed
      else if ltb 65535 (number_at values 2)
      then failed
      else if ltb 65535 (number_at values 3)
      then failed
      else if ltb 65535 (number_at values 4)
      then failed
      else done

  unfoldable pub checked : Result × List (Value Word) → Option (Result × List (Value Word))
  checked (done, values) = some (check_ranges values, values)
  checked (help_shown, values) = some (help_shown, values)
  checked (failed, values) = some (failed, values)

module _ {Word : Type 0} (lib : Text Word) where
  unfoldable pub parse_arguments :
      (List ℕ → List LongOption → List (Answer Word))
      → Bool
      → Word
      → Option (Result × List (Value Word))
  parse_arguments getopt_long allocated addr =
      ptk_config_parse lib server_fields getopt_long allocated (defaults addr) >>= checked

  number_bound :
      (values : List (Value Word)) (i : ℕ) (f : Field)
      → IsTyped lib server_fields values
      → get_elem? server_fields i ≡ some f
      → f.type ≡ uint16
      → number_at values i ≤ 65535
  number_bound values i f t e u = elim (Option-cases (get_elem? values i)) [
    | inl n ↦ rw (number_at, n) (omega arith)
    | inr (number n, r) ↦
        rw (number_at, r)
          (let fit : Fits lib uint16 (number n) =
              subst (λ type. Fits lib type (number n)) u (t i f (number n) e r) in
            omega (arith, fit))
    | inr (text w, r) ↦ rw (number_at, r) (omega arith)
    | inr (flag b, r) ↦ rw (number_at, r) (omega arith)
  ]

  check_ranges_lem :
      (values : List (Value Word)) → IsTyped lib server_fields values → check_ranges values ≡ done
  unfolding check_ranges
  check_ranges_lem values t =
      rw
        (
          le→ltb 65535 (number_at values 1) (number_bound values 1 (field 1 0 uint16) t refl refl),
          le→ltb 65535 (number_at values 2) (number_bound values 2 (field 2 0 uint16) t refl refl),
          le→ltb 65535 (number_at values 3) (number_bound values 3 (field 3 0 uint16) t refl refl),
          le→ltb 65535 (number_at values 4) (number_bound values 4 (field 4 0 uint16) t refl refl),
        )
        refl

  defaults-IsTyped : (addr : Word) → IsTyped lib server_fields (defaults addr)
  defaults-IsTyped addr zero f v e r = Fits-some lib e r tt
  defaults-IsTyped addr (suc zero) f v e r =
      Fits-some lib {f = field 1 0 uint16} {v = number 100} e r (omega arith)
  defaults-IsTyped addr (suc (suc zero)) f v e r =
      Fits-some lib {f = field 2 0 uint16} {v = number 100} e r (omega arith)
  defaults-IsTyped addr (suc (suc (suc zero))) f v e r =
      Fits-some lib {f = field 3 0 uint16} {v = number 100} e r (omega arith)
  defaults-IsTyped addr (suc (suc (suc (suc zero)))) f v e r =
      Fits-some lib {f = field 4 0 uint16} {v = number 100} e r (omega arith)
  defaults-IsTyped addr (suc (suc (suc (suc (suc i))))) f v e r = absurd (none-ne-some e)

  -- Where the answers of getopt_long have the arguments that their options require, the range
  -- checks of parse_arguments reject nothing: its result and its values are those of
  -- ptk_config_parse.
  pub parse_arguments_lem :
      (getopt_long : List ℕ → List LongOption → List (Answer Word)) (allocated : Bool) (addr : Word)
      → ((opts : List ℕ)
          → All (HasArgument lib server_fields) (getopt_long opts (long_options 0 server_fields)))
      → parse_arguments getopt_long allocated addr
        ≡ ptk_config_parse lib server_fields getopt_long allocated (defaults addr)
  unfolding parse_arguments checked
  parse_arguments_lem getopt_long allocated addr h =
      let (result, values, e, t) =
        ptk_config_parse_lem lib server_fields getopt_long allocated (defaults addr) h
          (defaults-IsTyped addr) in
      rw e (go result values t)
    where
      go :
          (result : Result) (values : List (Value Word))
          → IsTyped lib server_fields values
          → checked (result, values) ≡ some (result, values)
      go done values t = rw (check_ranges_lem values t)
      go help_shown values t = refl
      go failed values t = refl
