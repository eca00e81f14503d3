-- ===== src/Tests/Options.antt =====
-- Command lines, and the timed lock and wait.
use protocol_toolkit.Prelude.{
  ◌%◌, ◌⊎◌, ℕ, zero, suc, ◌+◌, ◌*◌, ◌<◌, ◌≤◌, true, false, some, List, [], ◌∷◌, ◌≡◌, refl, arith,
  inl, inr, ◌==◌, some-injective, none-ne-some, sym, ap, ◌∙◌,
}
use protocol_toolkit.Err.{PtkErr}
use protocol_toolkit.Config.{
  Field, uint16, bool, Value, number, flag, Text, Answer, Result, find_field, option_code,
  ptk_config_parse,
}
use protocol_toolkit.Config.Lookup.{IsDistinct, find_field-option_code}
use protocol_toolkit.Config.Parse.{IsTyped, Fits-some, ptk_config_parse_lem}
use protocol_toolkit.Server.Args.{server_fields, defaults, parse_arguments, parse_arguments_lem}
use protocol_toolkit.Thread.{Posix, TimeVal, ebusy, timed_out, retry, abs_timeout}
use protocol_toolkit.Prelude.Integers.{pos, negsuc, above, below}
use protocol_toolkit.Thread.Lock.{EndsAt, retry_ends}
use protocol_toolkit.Thread.Deadline.{abs_timeout_lem}

-- Texts are the numbers that they say.
abbrev lib : Text ℕ
lib = record {
  strtol = λ word. (word, true);
  strtoul = λ word. (word, true);
  is_true = λ word. word == 1;
  is_false = λ word. word == 0;
  true_text = 1;
}

abbrev port : Field
port = record { name = 0; short_name = 0x70; type = uint16; has_target = true }

abbrev verbose : Field
verbose = record { name = 1; short_name = 0; type = bool; has_target = true }

abbrev fields : List Field
fields = port ∷ verbose ∷ []

abbrev answers : List (Answer ℕ)
answers = record { code = 0x70; optarg = some 502 } ∷ []

fields-IsDistinct : IsDistinct fields
fields-IsDistinct zero zero f g p q e = inr refl
fields-IsDistinct zero (suc zero) f g p q e =
    inl (e ∙ ap (λ (h : Field). h.short_name) (sym (some-injective q)))
fields-IsDistinct (suc zero) j f g p q e =
    inl (ap (λ (h : Field). h.short_name) (sym (some-injective p)))
fields-IsDistinct zero (suc (suc j)) f g p q e = absurd (none-ne-some q)
fields-IsDistinct (suc (suc i)) j f g p q e = absurd (none-ne-some p)

values-IsTyped : IsTyped lib fields (number 1 ∷ flag false ∷ [])
values-IsTyped zero f v e r = Fits-some lib {f = port} {v = number 1} e r (omega arith)
values-IsTyped (suc zero) f v e r = Fits-some lib {f = verbose} {v = flag false} e r tt
values-IsTyped (suc (suc i)) f v e r = absurd (none-ne-some e)

-- The mutex is busy, and the clock goes on by a second a call.
abbrev busy : Posix
busy = record {
  mutexattr_init = λ call. 0;
  mutexattr_settype = λ call. 0;
  mutex_init = λ call. 0;
  trylock = λ call. ebusy;
  lock = λ call. 0;
  unlock = λ call. 0;
  cond_init = λ call. 0;
  cond_signal = λ call. 0;
  cond_wait = λ call. 0;
  cond_timedwait = λ call deadline. 0;
  thread_create = λ call. 0;
  thread_join = λ call. 0;
  now = λ call. record { sec = call; usec = 0 };
}

abbrev reading : TimeVal
reading = record { sec = 0; usec = 999999 }

time_over : timed_out reading (record { sec = 1 + 2; usec = 0 }) (pos 2000) ≡ true
unfolding timed_out
time_over = refl

ptk_config_parse_lem_example :
    (result : Result) × (values' : List (Value ℕ)) × (ptk_config_parse lib fields
        (λ opts options. answers)
        true
        (number 1 ∷ flag false ∷ [])
      ≡ some (result, values'))
    × IsTyped lib fields values'
ptk_config_parse_lem_example =
    ptk_config_parse_lem lib fields (λ opts options. answers) true (number 1 ∷ flag false ∷ [])
      (λ opts. (λ i f e g b. (502, refl), tt)) values-IsTyped

find_field-option_code_example : find_field fields (option_code 1 verbose) ≡ some 1
find_field-option_code_example =
    find_field-option_code fields 1 verbose fields-IsDistinct refl (omega arith)

parse_arguments_lem_example :
    parse_arguments lib (λ opts options. record { code = 1001; optarg = some 70000 } ∷ []) true 5
    ≡ ptk_config_parse lib server_fields
        (λ opts options. record { code = 1001; optarg = some 70000 } ∷ [])
        true
        (defaults 5)
parse_arguments_lem_example =
    parse_arguments_lem lib (λ opts options. record { code = 1001; optarg = some 70000 } ∷ []) true
      5 (λ opts. (λ i f e g b. (70000, refl), tt))

retry_ends_example :
    (e : PtkErr) × (k : ℕ) × (k ≤ 2)
    × (retry busy 5 reading (pos 2000) 1 ≡ some e)
    × EndsAt busy reading (pos 2000) 1 k e
retry_ends_example = retry_ends busy reading (pos 2000) 5 1 2 time_over (omega arith)

abs_timeout_lem_example :
    (above (abs_timeout reading (negsuc 1499)).sec * 1000000000
        + above (abs_timeout reading (negsuc 1499)).nsec
        + 1500 * 1000000
      ≡ (reading.sec * 1000000 + reading.usec) * 1000
        + 0 * 1000000
        + below (abs_timeout reading (negsuc 1499)).sec * 1000000000
        + below (abs_timeout reading (negsuc 1499)).nsec)
    × (((1500 % 1000 * 1000 ≤ reading.usec)
          × (below (abs_timeout reading (negsuc 1499)).nsec ≡ 0)
          × (above (abs_timeout reading (negsuc 1499)).nsec < 1000000000))
        ⊎ ((reading.usec < 1500 % 1000 * 1000)
            × (0 < below (abs_timeout reading (negsuc 1499)).nsec)))
abs_timeout_lem_example = abs_timeout_lem reading (negsuc 1499) (omega arith)

abbrev later : TimeVal
later = record { sec = 3; usec = 250000 }
