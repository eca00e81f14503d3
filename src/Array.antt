-- ===== src/Array.antt =====
-- PTK_ARRAY_DECLARE of include/ptk_array.h, for any element type: its zero, and its size in
-- bytes. Pointers are `Option`s; the outer `none` is an access outside the elements, or the use of
-- a value that was never returned. `call` numbers the calls of the allocator.
pub mod Laws
use protocol_toolkit.Prelude.{
  ℕ, ◌+◌, ◌-◌, ◌*◌, ◌/◌, ◌%◌, ◌^◌, ◌<◌, Bool, true, false, not, ◌||◌, Option, none, some, List, ◌∷◌,
  ◌++◌, ltb, leb, if◌then◌else◌, ◌==◌, ◌>>=◌, get_elem?, set, take, drop, replicate, length,
}
use protocol_toolkit.Err.{PtkErr, ok, null_ptr, out_of_bounds, invalid_param, no_resources, is_ok}
use protocol_toolkit.Alloc.{size_t}
use protocol_toolkit.Heap.{Grants}

-- The elements' destructor is left out; `elements` is what the pointer gives, which is not NULL.
pub record Array (A : Type 0) : Type 0 where
  pub elements : List A
  pub len : ℕ

module _ {A : Type 0} (blank : A) (elem_size : ℕ) (grants : Grants) (call : ℕ) where
  -- The function ends with no `return`: where it does not give NULL it gives no value.
  unfoldable pub array_create : ℕ → Option (Option (Array A))
  array_create initial_size =
      if initial_size == 0
      then some none
      else if not (grants call 24)
      then some none
      else if size_t (initial_size * elem_size) == 0
          || not (grants (call + 1) (size_t (initial_size * elem_size)))
      then some none
      else none

  -- memcpy of `len` elements of the source over a new array's, which `copied` makes.
  unfoldable pub array_from_raw : Option (List A) → ℕ → Option (Option (Array A))
  array_from_raw none count = some none
  array_from_raw (some raw_data) count = if count == 0 then some none else do
    made ← array_create count
    elim made [
      | none ↦ some none
      | some arr ↦
          if ltb (length raw_data) count || ltb (length arr.elements) count
          then none
          else some
              (some (record arr { elements = take count raw_data ++ drop count arr.elements }))
    ]

  unfoldable pub array_copy : Option (Array A) → Option (Option (Array A))
  array_copy none = some none
  array_copy (some src) = array_from_raw (some src.elements) src.len

  -- The elements after ptk_realloc: as many as the bytes asked for hold. `stale` is what the block
  -- may hold behind the elements, which ptk_realloc keeps up to the old size rounded up to 16.
  abbrev pub moved : List A → List A → ℕ → List A
  moved stale elements cells =
      take cells (elements ++ stale) ++ replicate (cells - length (elements ++ stale)) blank

  unfoldable pub array_resize : List A → Option (Array A) → ℕ → Option (PtkErr × Option (Array A))
  array_resize stale none new_len = some (null_ptr, none)
  array_resize stale (some arr) new_len =
      if new_len == 0
      then some (invalid_param, some arr)
      else let bytes = size_t (new_len * elem_size) in
        let cells = bytes / elem_size in
        if bytes == 0 || not (grants call bytes)
        then some (no_resources, some arr)
        else if ltb arr.len new_len
        then if ltb cells new_len
          then none
          else some (
            ok,
            some (record {
              elements =
                  take arr.len (moved stale arr.elements cells)
                  ++ (replicate (new_len - arr.len) blank
                      ++ drop new_len (moved stale arr.elements cells));
              len = new_len;
            }),
          )
        else some (ok, some (record { elements = moved stale arr.elements cells; len = new_len }))

  unfoldable pub array_append : List A → Option (Array A) → A → Option (PtkErr × Option (Array A))
  array_append stale none element = some (null_ptr, none)
  array_append stale (some arr) element = do
    (err, p) ← array_resize stale (some arr) (size_t (arr.len + 1))
    arr' ← p
    if not (is_ok err)
        then some (err, some arr')
        else if ltb (arr'.len - 1) (length arr'.elements)
        then some (ok, some (record arr' { elements = set arr'.elements (arr'.len - 1) element }))
        else none

module _ {A : Type 0} where
  -- The element is what is stored through `element`, which is not NULL.
  unfoldable pub array_get : Option (Array A) → ℕ → Option (PtkErr × Option A)
  array_get none index = some (null_ptr, none)
  array_get (some arr) index =
      if leb arr.len index
      then some (out_of_bounds, none)
      else do element ← get_elem? arr.elements index; some (ok, some element)

  unfoldable pub array_set : Option (Array A) → ℕ → A → Option (PtkErr × Option (Array A))
  array_set none index element = some (null_ptr, none)
  array_set (some arr) index element =
      if leb arr.len index
      then some (out_of_bounds, some arr)
      else if ltb index (length arr.elements)
      then some (ok, some (record arr { elements = set arr.elements index element }))
      else none

  unfoldable pub array_is_valid : Option (Array A) → Bool
  array_is_valid none = false
  array_is_valid (some arr) = ltb 0 arr.len

  unfoldable pub array_len : Option (Array A) → ℕ
  array_len none = 0
  array_len (some arr) = if ltb 0 arr.len then arr.len else 0
