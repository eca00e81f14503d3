-- ===== src/Server/Create/Laws.antt =====
-- The tables that a server starts with are those of its configuration.
use protocol_toolkit.Prelude.{
  ◌≢◌, Option-cases, suc-ne-zero, ℕ, zero, suc, ◌+◌, ◌*◌, ◌/◌, ◌<◌, Bool, true, false, ◌||◌, Option,
  none, some, List, [], ltb, if◌then◌else◌, get_elem?, set, replicate, length, ◌≡◌, refl, ◌∙◌, sym,
  arith, ◌⊎◌, inl, inr, lt→ltb, le→ltb, Bool-cases, length-set, length-replicate,
  get_elem?-set_self, get_elem?-set_ne, get_elem?-cases, ℕ_discrete, ==-false_of_ne,
}
use native.Mathlib.Nat.{suc-mul}
use protocol_toolkit.Prelude.Memory.{zeros, length-zeros}
use protocol_toolkit.Heap.{Grants, obtain}
use protocol_toolkit.Thread.{Posix, mutex_create}
use protocol_toolkit.Server.{Store}
use protocol_toolkit.Server.Spec
use protocol_toolkit.Server.Refine.{Holds, IsTable}
use protocol_toolkit.Server.Create.{
  ServerConfig, is_null, fill, make_table, holding_value, input_value, coil_value, discrete_value,
  create_server_state,
}

abbrev pub table {ℓ} : {A : Type ℓ} → ℕ → (ℕ → A) → ℕ → Option A
table n value i = if ltb i n then some (value i) else none

-- The tables of a new server.
abbrev pub initial : ServerConfig → Spec.Tables
initial config = record {
  holding = table config.num_holding_regs holding_value;
  input = table config.num_input_regs input_value;
  coil = table config.num_coils coil_value;
  discrete = table config.num_discrete_inputs discrete_value;
}

obtain-cases :
    (grants : Grants) (call size : ℕ)
    → size ≢ 0
    → ((grants call size ≡ false) × (obtain grants call size ≡ none))
      ⊎ ((mem : List ℕ) × (obtain grants call size ≡ some mem) × (length mem ≡ size))
unfolding obtain
obtain-cases grants call size h = elim (Bool-cases (grants call size)) [
  | inl e ↦ inr (zeros size, rw (==-false_of_ne size 0 h, e), length-zeros size)
  | inr e ↦ inl (e, rw (==-false_of_ne size 0 h, e) refl)
]

module _ {A : Type 0} (value : ℕ → A) where
  -- The values below `i` are there.
  abbrev IsFilled : ℕ → List A → Type 0
  IsFilled i xs = (j : ℕ) → j < i → get_elem? xs j ≡ some (value j)

  IsFilled-set :
      (i : ℕ) (xs : List A) → i < length xs → IsFilled i xs → IsFilled (i + 1) (set xs i (value i))
  IsFilled-set i xs h f j l = elim (ℕ_discrete j i) [
    | yes e ↦ rw e (get_elem?-set_self xs i (value i) h)
    | no ne ↦ get_elem?-set_ne xs i j (value i) (λ e. ne (sym e)) ∙ f j (omega arith)
  ]

  fill_lem :
      (left i : ℕ) (xs : List A)
      → length xs ≡ i + left
      → IsFilled i xs
      → (ys : List A) × (fill value left i xs ≡ some ys)
        × (length ys ≡ i + left)
        × IsFilled (i + left) ys
  unfolding fill
  fill_lem zero i xs h f = let e : i + 0 ≡ i = omega arith in (xs, refl, h, rw e f)
  fill_lem (suc left) i xs h f =
      let inside : i < length xs = omega arith in
      let (ys, e, l, g) =
        fill_lem left (i + 1) (set xs i (value i)) (omega (arith, length-set xs i (value i)))
          (IsFilled-set i xs inside f) in
      let shift : i + 1 + left ≡ i + suc left = omega arith in
      (ys, rw (lt→ltb i (length xs) inside) e, omega arith, rw (sym shift) g)

  fill-IsTable :
      (n : ℕ) (xs : List A)
      → length xs ≡ n
      → (ys : List A) × (fill value n 0 xs ≡ some ys) × IsTable ys n (table n value)
  fill-IsTable n xs h =
      let (ys, e, l, f) = fill_lem n 0 xs (omega arith) (λ j l. absurd (omega arith)) in
      let size : length ys ≡ n = omega arith in
      (ys, e, record { size = size; lookup = λ i. at ys size f i })
    where
      at :
          (ys : List A)
          → length ys ≡ n
          → IsFilled (0 + n) ys
          → (i : ℕ) → get_elem? ys i ≡ table n value i
      at ys size f i = elim (get_elem?-cases ys i) [
        | inl (l, r) ↦ rw (lt→ltb i n (omega arith)) (f i (omega arith))
        | inr (l, e) ↦ rw (le→ltb i n (omega arith)) e
      ]

  make_table_lem :
      (grants : Grants) (call size : ℕ) (blank : A) (n : ℕ)
      → 0 < size
      → ((grants call (n * size) ≡ false) × (make_table grants call size blank value n ≡ some none))
        ⊎ ((ys : List A) × (make_table grants call size blank value n ≡ some (some ys))
            × IsTable ys n (table n value))
  unfolding make_table
  make_table_lem grants call size blank zero h =
      inr ([], refl, record { size = refl; lookup = λ i. rw (le→ltb i 0 (omega arith)) refl })
  make_table_lem grants call size blank (suc n) h =
      elim (obtain-cases grants call (suc n * size)
        (λ e. absurd (omega (arith, e, suc-mul n size)))) [
          | inl (e, r) ↦ inl (e, rw (r, suc-ne-zero n))
          | inr (mem, r, l) ↦
              let cells : length mem / size ≡ suc n = grind (arith, l) in
              let (ys, e, t) =
                fill-IsTable (suc n) (replicate (suc n) blank) (length-replicate (suc n) blank) in
              inr (ys, rw (r, suc-ne-zero n, cells, e), t)
        ]

module _ (grants : Grants) (posix : Posix) where
  -- An allocation that is refused, or a mutex that cannot be made.
  abbrev pub Refused : Type 0
  Refused =
      ((call : ℕ) × (size : ℕ) × (grants call size ≡ false))
      ⊎ ((call : ℕ) × (mutex_create grants posix call ≡ none))

  is_null-Refused : (call : ℕ) → is_null (mutex_create grants posix call) ≡ true → Refused
  is_null-Refused call h = elim (Option-cases (mutex_create grants posix call)) [
    | inl e ↦ inr (call, e)
    | inr (m, e) ↦ absurd (ground (arith, e, h))
  ]

  or-Refused :
      (a b : Bool) → (a ≡ true → Refused) → (b ≡ true → Refused) → (a || b) ≡ true → Refused
  or-Refused true b f g h = f refl
  or-Refused false b f g h = g h

  mutexes-Refused :
      (call : ℕ)
      → (is_null (mutex_create grants posix (call + 1))
          || is_null (mutex_create grants posix (call + 2))
          || is_null (mutex_create grants posix (call + 3))
          || is_null (mutex_create grants posix (call + 4))
          || is_null (mutex_create grants posix (call + 5)))
        ≡ true
      → Refused
  mutexes-Refused call =
      or-Refused _ _
        (or-Refused _ _
          (or-Refused _ _ (or-Refused _ _ (is_null-Refused (call + 1)) (is_null-Refused (call + 2)))
            (is_null-Refused (call + 3)))
          (is_null-Refused (call + 4)))
        (is_null-Refused (call + 5))

  -- Where a server's state is made, its tables are those of the configuration, with the values of
  -- the loops, and no loop writes outside the memory that was asked for. It is not made only where an allocation is
  -- refused or a mutex cannot be created.
  pub create_server_state_lem :
      (call : ℕ) (config : ServerConfig)
      → ((create_server_state grants posix call config ≡ some none) × Refused)
        ⊎ ((store : Store) × (create_server_state grants posix call config ≡ some (some store))
            × Holds store (initial config))
  unfolding create_server_state
  create_server_state_lem call config =
      elim (obtain-cases grants call 120 (λ e. absurd (omega arith))) [
        | inl (f, e) ↦ inl (rw (create_server_state, e), inl (call, 120, f))
        | inr (mem, e0, l0) ↦
            elim (Bool-cases (
              is_null (mutex_create grants posix (call + 1))
              || is_null (mutex_create grants posix (call + 2))
              || is_null (mutex_create grants posix (call + 3))
              || is_null (mutex_create grants posix (call + 4))
              || is_null (mutex_create grants posix (call + 5)))) [
                | inl e1 ↦ inl (rw (create_server_state, e0, e1), mutexes-Refused call e1)
                | inr e1 ↦
                    elim (make_table_lem holding_value grants (call + 6) 2 0 config.num_holding_regs
                      (omega arith)) [
                        | inl (f, e) ↦ inl (rw (create_server_state, e0, e1, e), inl (_, _, f))
                        | inr (hs, e2, t2) ↦
                            elim (make_table_lem input_value grants (call + 7) 2 0
                              config.num_input_regs (omega arith)) [
                                | inl (f, e) ↦
                                    inl (rw (create_server_state, e0, e1, e2, e), inl (_, _, f))
                                | inr (is, e3, t3) ↦
                                    elim (make_table_lem coil_value grants (call + 8) 1 false
                                      config.num_coils (omega arith)) [
                                        | inl (f, e) ↦ inl (
                                          rw (create_server_state, e0, e1, e2, e3, e),
                                          inl (_, _, f),
                                        )
                                        | inr (cs, e4, t4) ↦
                                            elim (make_table_lem discrete_value grants (call + 9) 1
                                              false config.num_discrete_inputs (omega arith)) [
                                                | inl (f, e) ↦ inl (
                                                  rw (create_server_state, e0, e1, e2, e3, e4, e),
                                                  inl (_, _, f),
                                                )
                                                | inr (ds, e5, t5) ↦ inr (
                                                  _,
                                                  rw (create_server_state, e0, e1, e2, e3, e4, e5),
                                                  record {
                                                    holding = t2;
                                                    input = t3;
                                                    coil = t4;
                                                    discrete = t5;
                                                  },
                                                )
                                              ]
                                      ]
                              ]
                      ]
              ]
      ]
