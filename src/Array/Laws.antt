-- ===== src/Array/Laws.antt =====
-- What the array operations do to a valid array.
use protocol_toolkit.Prelude.{
  ℕ, ◌+◌, ◌-◌, ◌*◌, ◌/◌, ◌^◌, ◌<◌, ◌≤◌, none, some, List, [], ◌∷◌, ◌++◌, set, take, drop, replicate,
  length, ◌≡◌, refl, sym, ◌∙◌, ap, arith, ◌⊎◌, inl, inr, lt→leb, le→leb, lt→ltb, le→ltb, lt→ne,
  dec_lt, Bool-cases, length-set, length-append, length-take, length-replicate, get_elem?-set_self,
  get_elem?-set_ne, ◌≢◌, take-length, append-nil, drop-zero_of_le, take_exact, take-append_left,
  take-take,
}
use protocol_toolkit.Err.{ok, out_of_bounds, no_resources}
use protocol_toolkit.Alloc.{size_t}
use protocol_toolkit.Heap.{Grants}
use protocol_toolkit.Array.{
  Array, moved, array_create, array_resize, array_append, array_get, array_set,
}

-- The length is that of the elements, which are not none and fit the address space.
pub record IsValid {A : Type 0} (elem_size : ℕ) (arr : Array A) : Type 0 where
  pub sized : length arr.elements ≡ arr.len
  pub nonempty : 0 < arr.len
  pub fits : arr.len * elem_size < 2 ^ 64

module _ {A : Type 0} (blank : A) (elem_size : ℕ) (grants : Grants) (call : ℕ) where
  -- No call of the create function gives an array: the answer is NULL, or there is no answer.
  pub array_create_fails :
      (n : ℕ)
      → (array_create blank elem_size grants call n ≡ some none)
        ⊎ (array_create blank elem_size grants call n ≡ none)
  unfolding array_create
  array_create_fails n = ground arith

  -- The elements after a resize: the old ones as far as the new length goes, then blanks.
  abbrev pub resized : List A → ℕ → List A
  resized elements n = take n elements ++ replicate (n - length elements) blank

  length-resized : (xs : List A) (n : ℕ) → length (resized xs n) ≡ n
  length-resized xs n = omega (
    arith,
    length-append (take n xs) (replicate (n - length xs) blank),
    length-take n xs,
    length-replicate (n - length xs) blank,
  )

  module _ (stale xs : List A) (n : ℕ) where
    length-moved : length (moved blank elem_size grants call stale xs n) ≡ n
    length-moved = omega (
      arith,
      length-append (take n (xs ++ stale)) (replicate (n - length (xs ++ stale)) blank),
      length-take n (xs ++ stale),
      length-replicate (n - length (xs ++ stale)) blank,
    )

    grown :
        length xs ≤ n
        → take (length xs) (moved blank elem_size grants call stale xs n)
            ++ (replicate (n - length xs) blank
                ++ drop n (moved blank elem_size grants call stale xs n))
          ≡ resized xs n
    grown h =
        ap
          (λ r.
            r
            ++ (replicate (n - length xs) blank
                ++ drop n (moved blank elem_size grants call stale xs n)))
          (take-append_left (length xs) (take n (xs ++ stale)) _
              (omega (arith, length-take n (xs ++ stale), length-append xs stale))
            ∙ take-take (length xs) n (xs ++ stale) h
            ∙ take_exact (length xs) xs stale refl)
        ∙ ap (λ r. xs ++ (replicate (n - length xs) blank ++ r))
            (drop-zero_of_le n (moved blank elem_size grants call stale xs n)
              (omega (arith, length-moved)))
        ∙ ap (λ r. xs ++ r) (append-nil (replicate (n - length xs) blank))
        ∙ ap (λ r. r ++ replicate (n - length xs) blank) (sym (take-length n xs h))

    shrunk : n ≤ length xs → moved blank elem_size grants call stale xs n ≡ resized xs n
    shrunk h =
        let nothing : n - length (xs ++ stale) ≡ 0 = omega (arith, length-append xs stale) in
        let nothing' : n - length xs ≡ 0 = omega arith in
        rw (nothing, nothing') (ap (λ r. r ++ replicate 0 blank) (take-append_left n xs stale h))

  -- Resizing a valid array to a length that is not 0 and fits the address space: no memory and no
  -- change, or a valid array of that length with the old elements as far as it goes, and blanks
  -- behind them.
  pub array_resize_lem :
      (stale : List A) (arr : Array A) (n : ℕ)
      → 0 < elem_size
      → IsValid elem_size arr
      → 0 < n
      → n * elem_size < 2 ^ 64
      → (array_resize blank elem_size grants call stale (some arr) n
          ≡ some (no_resources, some arr))
        ⊎ ((arr' : Array A) × (array_resize blank elem_size grants call stale (some arr) n
              ≡ some (ok, some arr'))
            × IsValid elem_size arr'
            × (arr'.len ≡ n)
            × (arr'.elements ≡ resized arr.elements n))
  unfolding array_resize
  array_resize_lem stale arr n s v h k =
      let whole : size_t (n * elem_size) ≡ n * elem_size = omega arith in
      let cells : n * elem_size / elem_size ≡ n = grind arith in
      let some_bytes : 0 < n * elem_size = grind arith in
      let size_eq = length-resized arr.elements n in
      elim (Bool-cases (grants call (n * elem_size))) [
        | inl yes_ ↦ elim (dec_lt arr.len n) [
          | yes more ↦ inr (
            record { elements = resized arr.elements n; len = n },
            rw
                (
                  lt→ne n 0 h,
                  whole,
                  lt→ne (n * elem_size) 0 some_bytes,
                  yes_,
                  lt→ltb arr.len n more,
                  cells,
                  le→ltb n n (omega arith),
                  sym v.sized,
                )
                (ap (λ (r : List A). some (ok, some (record { elements = r; len = n })))
                  (grown stale arr.elements n (omega (arith, v.sized)))),
            record { sized = size_eq; nonempty = h; fits = k },
            refl,
            refl,
          )
          | no fewer ↦ inr (
            record { elements = resized arr.elements n; len = n },
            rw (
              lt→ne n 0 h,
              whole,
              lt→ne (n * elem_size) 0 some_bytes,
              yes_,
              le→ltb arr.len n (omega arith),
              cells,
              shrunk stale arr.elements n (omega (arith, v.sized)),
            ),
            record { sized = size_eq; nonempty = h; fits = k },
            refl,
            refl,
          )
        ]
        | inr no_ ↦ inl (rw (lt→ne n 0 h, whole, lt→ne (n * elem_size) 0 some_bytes, no_))
      ]

  set-last : (xs : List A) (x y : A) → set (xs ++ x ∷ []) (length xs) y ≡ xs ++ y ∷ []
  set-last [] x y = refl
  set-last (z ∷ xs) x y = ap (λ r. z ∷ r) (set-last xs x y)

  resized-suc : (xs : List A) (n : ℕ) → length xs ≡ n → resized xs (n + 1) ≡ xs ++ blank ∷ []
  resized-suc xs n h =
      let one : n + 1 - length xs ≡ 1 = omega arith in
      ap (λ r. r ++ replicate (n + 1 - length xs) blank) (take-length (n + 1) xs (omega arith))
      ∙ ap (λ (k : ℕ). xs ++ replicate k blank) one

  -- Appending to a valid array that can have one more element: no memory and no change, or a valid
  -- array with the new element behind the old ones.
  pub array_append_lem :
      (stale : List A) (arr : Array A) (x : A)
      → 0 < elem_size
      → IsValid elem_size arr
      → (arr.len + 1) * elem_size < 2 ^ 64
      → (array_append blank elem_size grants call stale (some arr) x
          ≡ some (no_resources, some arr))
        ⊎ ((arr' : Array A) × (array_append blank elem_size grants call stale (some arr) x
              ≡ some (ok, some arr'))
            × IsValid elem_size arr'
            × (arr'.elements ≡ arr.elements ++ x ∷ []))
  unfolding array_append
  array_append_lem stale arr x s v k =
      let room : size_t (arr.len + 1) ≡ arr.len + 1 = grind arith in
      let last : arr.len + 1 - 1 ≡ arr.len = omega arith in
      elim (array_resize_lem stale arr (arr.len + 1) s v (omega arith) k) [
        | inl e ↦ inl (rw (room, e))
        | inr (arr', e, v', l, c) ↦ inr (
          record arr' { elements = set arr'.elements arr.len x },
          rw (room, e, l, last, lt→ltb arr.len (length arr'.elements) (omega (arith, v'.sized))),
          record {
            sized = length-set arr'.elements arr.len x ∙ v'.sized;
            nonempty = v'.nonempty;
            fits = v'.fits;
          },
          ap (λ r. set r arr.len x) (c ∙ resized-suc arr.elements arr.len v.sized)
              ∙ ap (λ (i : ℕ). set (arr.elements ++ blank ∷ []) i x) (sym v.sized)
              ∙ set-last arr.elements blank x,
        )
      ]

module _ {A : Type 0} where
  -- On a valid array and an index below its length, what was set is what is got, every other
  -- element and the length are the same, and the array stays valid; on any other index both answer
  -- PTK_ERR_OUT_OF_BOUNDS and nothing changes.
  pub array_get-array_set :
      (elem_size : ℕ) (arr : Array A) (i : ℕ) (x : A)
      → IsValid elem_size arr
      → ((i < arr.len)
          × ((arr' : Array A) × (array_set (some arr) i x ≡ some (ok, some arr'))
              × IsValid elem_size arr'
              × (arr'.len ≡ arr.len)
              × (array_get (some arr') i ≡ some (ok, some x))
              × ((j : ℕ) → i ≢ j → array_get (some arr') j ≡ array_get (some arr) j)))
        ⊎ ((arr.len ≤ i)
            × (array_set (some arr) i x ≡ some (out_of_bounds, some arr))
            × (array_get (some arr) i ≡ some (out_of_bounds, none)))
  unfolding array_set array_get
  array_get-array_set elem_size arr i x v = elim (dec_lt i arr.len) [
    | yes below ↦ inl (
      below,
      (
        record arr { elements = set arr.elements i x },
        rw (lt→leb arr.len i below, lt→ltb i (length arr.elements) (omega (arith, v.sized))),
        record {
          sized = length-set arr.elements i x ∙ v.sized;
          nonempty = v.nonempty;
          fits = v.fits;
        },
        refl,
        rw (lt→leb arr.len i below, get_elem?-set_self arr.elements i x (omega (arith, v.sized))),
        λ j d. rw (get_elem?-set_ne arr.elements i j x d),
      ),
    )
    | no above ↦
        inr (omega arith, rw (le→leb arr.len i (omega arith)), rw (le→leb arr.len i (omega arith)))
  ]
