-- ===== src/Client/Ready.antt =====
-- What the parsed arguments of the client are good for.
use protocol_toolkit.Prelude.{
  ℕ, ◌+◌, Bool, true, false, Option, none, some, List, [], ◌∷◌, if◌then◌else◌, ◌==◌, ◌≡◌, refl,
  arith,
}
use protocol_toolkit.Client.{
  Lib, Memory, read_holding, read_input, read_coils, read_discrete, write_holding, write_coil,
  write_holding_multiple, write_coils_multiple, ClientConfig, Given, Result, parsed, help_shown,
  failed,
}
use protocol_toolkit.Client.Arguments.{
  Next, continue, stop, handle_option, parse_loop, parse_arguments,
}
use protocol_toolkit.Client.Options.{
  IsReady, IsPartly, IsHandled, port_option_lem, unit_option_lem, read_option_lem, write_option_lem,
  write_coil_option_lem,
}

module _ {Word : Type 0} (lib : Lib Word) where
  if-IsHandled :
      (b : Bool) (x y : Option (Next Word))
      → IsHandled x
      → IsHandled y
      → IsHandled (if b then x else y)
  if-IsHandled true x y h k = h
  if-IsHandled false x y h k = k

  handle_option_lem :
      (mem : Memory) (given : Given Word) (config : ClientConfig Word) (operation_set : Bool)
      → IsPartly config operation_set
      → IsHandled (handle_option lib mem given config operation_set)
  unfolding handle_option
  handle_option_lem mem given config set p =
      let arg = given.optarg in
      if-IsHandled (given.code == 0x68) _ _
        (record { port = p.port; unit = p.unit; chosen = p.chosen })
        (if-IsHandled (given.code == 0x70) _ _ (port_option_lem lib arg config set p) (
          if-IsHandled (given.code == 0x75) _ _ (unit_option_lem lib arg config set p) (
            if-IsHandled (given.code == 0x76) _ _
              (record { port = p.port; unit = p.unit; chosen = p.chosen })
              (if-IsHandled (given.code == 1001) _ _
                (read_option_lem lib read_holding arg config set refl p)
                (if-IsHandled (given.code == 1002) _ _
                  (read_option_lem lib read_input arg config set refl p)
                  (if-IsHandled (given.code == 1003) _ _
                    (read_option_lem lib read_coils arg config set refl p)
                    (if-IsHandled (given.code == 1004) _ _
                      (read_option_lem lib read_discrete arg config set refl p)
                      (if-IsHandled (given.code == 1005) _ _
                        (write_option_lem lib write_holding true mem arg config set
                          (λ c v pos one. (v, one refl)) p)
                        (if-IsHandled (given.code == 1006) _ _
                          (write_coil_option_lem lib write_coil true mem arg config set
                            (λ c v pos one. (v, one refl)) p)
                          (if-IsHandled (given.code == 1007) _ _
                            (write_option_lem lib write_holding_multiple false mem arg config set
                              (λ c v pos one. (v, pos)) p)
                            (if-IsHandled (given.code == 1008) _ _
                              (write_coil_option_lem lib write_coils_multiple false mem arg config
                                set (λ c v pos one. (v, pos)) p)
                              (if-IsHandled (given.code == 0x3f) _ _ tt tt))))))))))))

  parse_loop_lem :
      (mem : ℕ → Memory) (call : ℕ) (options : List (Given Word)) (config : ClientConfig Word)
      (operation_set : Bool)
      → IsPartly config operation_set
      → (result : Result) × (config' : ClientConfig Word) × (parse_loop lib mem call options config
            operation_set
          ≡ some (result, config'))
        × (result ≡ parsed → IsReady config')
  unfolding parse_loop
  parse_loop_lem mem call [] config true p = (
    parsed,
    config,
    refl,
    λ e.
        let (address, supplied) = p.chosen refl in
        record { port = p.port; unit = p.unit; address = address; supplied = supplied },
  )
  parse_loop_lem mem call [] config false p =
      (failed, config, refl, λ e. absurd (ground (arith, e)))
  parse_loop_lem mem call (given ∷ options) config set p =
      split (λ config' set' h. parse_loop_lem mem (call + 1) options config' set' h)
        (handle_option lib (mem call) given config set) refl
        (handle_option_lem (mem call) given config set p)
    where
      split :
          ((config' : ClientConfig Word) (set' : Bool)
            → IsPartly config' set'
            → (result : Result) × (left : ClientConfig Word) × (parse_loop lib mem
                  (call + 1)
                  options
                  config'
                  set'
                ≡ some (result, left))
              × (result ≡ parsed → IsReady left))
          → (o : Option (Next Word)) → handle_option lib (mem call) given config set ≡ o
          → IsHandled o
          → (result : Result) × (config' : ClientConfig Word) × (parse_loop lib mem call
                (given ∷ options)
                config
                set
              ≡ some (result, config'))
            × (result ≡ parsed → IsReady config')
      split again none e h = absurd h
      split again (some (stop parsed)) e h = absurd h
      split again (some (stop help_shown)) e h =
          (help_shown, config, rw (parse_loop, e) refl, λ f. absurd (ground (arith, f)))
      split again (some (stop failed)) e h =
          (failed, config, rw (parse_loop, e) refl, λ f. absurd (ground (arith, f)))
      split again (some (continue config' set')) e h =
          let (result, left, r, ready) = again config' set' h in
          (result, left, rw (parse_loop, e) r, ready)

  -- For any options, and whatever memory runs out, parse_arguments comes to a result and stores
  -- nothing outside the arrays it allocates. Where the result is 0, the configuration is ready for
  -- run_client: the port is not 0 and fits 16 bits, the unit fits 8 bits, and the one operation
  -- that was asked for has its address and its count or its values.
  pub parse_arguments-IsReady :
      (mem : ℕ → Memory) (default_host : Word) (options : List (Given Word))
      (config : ClientConfig Word)
      → (result : Result) × (config' : ClientConfig Word) × (parse_arguments lib mem default_host
            options config
          ≡ some (result, config'))
        × (result ≡ parsed → IsReady config')
  unfolding parse_arguments
  parse_arguments-IsReady mem default_host options config =
      parse_loop_lem mem 0 options _ false (record {
        port = (omega arith, omega arith);
        unit = omega arith;
        chosen = λ e. absurd (ground (arith, e));
      })
