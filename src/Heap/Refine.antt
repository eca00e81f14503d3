-- ===== src/Heap/Refine.antt =====
-- ptk_alloc is an implementation of `obtain`.
use Prim.Native.String.{String}
use protocol_toolkit.Prelude.{
  ◌+◌, ℕ, zero, suc, ◌-◌, ◌^◌, ◌≤◌, Bool, true, false, Option, none, some, List, ◌∷◌, take, ◌≡◌,
  refl, ◌∙◌, ap, arith, inl, inr, lt→ne,
}
use protocol_toolkit.Prelude.Memory.{zeros}
use protocol_toolkit.Err.{PtkErr}
use protocol_toolkit.Alloc.{Libc, Block, header_size, user, round_up_16, alloc}
use protocol_toolkit.Alloc.Laws.{alloc_lem}
use protocol_toolkit.Heap.{Grants, obtain}

-- The requested bytes of what an allocation answers; the outer `none` is kept.
abbrev pub requested : ℕ → Option (Option Block × PtkErr) → Option (Option (List ℕ))
requested n none = none
requested n (some (none, e)) = some none
requested n (some (some b, e)) = some (some (take n (user b)))

abbrev pub is_there : Option (List ℕ) → Bool
is_there none = false
is_there (some raw) = true

-- The requests for which the C library's aligned_alloc has a block that holds the header and the
-- size rounded up to 16.
abbrev pub granted : Libc → Grants
granted libc call size = is_there (libc.aligned_alloc call (header_size + round_up_16 size))

take-zeros : (n m : ℕ) → n ≤ m → take n (zeros m) ≡ zeros n
unfolding zeros
take-zeros zero m h = refl
take-zeros (suc n) zero h = absurd (omega arith)
take-zeros (suc n) (suc m) h = ap (λ r. 0 ∷ r) (take-zeros n m (omega arith))

-- For up to 2^64 - 64 bytes a ptk_alloc never writes outside its block, and its requested bytes
-- are those of `obtain`: NULL for none, and otherwise as many zeros as were asked for exactly where
-- the C library's aligned_alloc has a block for the header and the size rounded up to 16.
pub alloc_refines :
    (libc : Libc) (file : String) (line call size : ℕ)
    → size ≤ 2 ^ 64 - 64
    → requested size (alloc libc call file line size none) ≡ some (obtain (granted libc) call size)
unfolding obtain
alloc_refines libc file line call zero h = rw (refused)
  where
    refused : requested 0 (alloc libc call file line 0 none) ≡ some none
    refused = unfold alloc in refl
alloc_refines libc file line call (suc n) h =
    elim (alloc_lem libc call file line (suc n) none (omega arith) h) [
      | inl (f, e) ↦ rw (lt→ne (suc n) 0 (omega arith), e, ap is_there f) refl
      | inr (raw, b, f, e, i) ↦
          rw (lt→ne (suc n) 0 (omega arith), e, ap is_there f)
            (ap (λ r. some (some r))
              (ap (λ r. take (suc n) r) i.zeroed ∙ take-zeros (suc n) b.header.size i.enough))
    ]
