-- ===== src/Config/ShortOpts.antt =====
-- The short options stay in their array.
use protocol_toolkit.Prelude.{
  store_at_lem, ℕ, suc, ◌+◌, ◌≤◌, some, List, [], ◌∷◌, ◌==◌, set, length, replicate, length-set,
  length-replicate, lt→ltb, le→ltb, ◌≡◌, refl, ◌∙◌, ap, arith, inl, inr, Bool-cases, dec_lt,
}
use protocol_toolkit.Config.{Field, is_bool, short_options, build_short_opts}

short_options_lem :
    (fields : List Field) (opts : List ℕ) (idx : ℕ)
    → length opts ≡ 256
    → idx ≤ 255
    → (opts' : List ℕ) × (idx' : ℕ) × (short_options fields opts idx ≡ some (opts', idx'))
      × (length opts' ≡ 256)
      × (idx' ≤ 255)
unfolding short_options
short_options_lem [] opts idx h l = (opts, idx, refl, h, l)
short_options_lem (f ∷ fields) opts idx h l =
    let (o, i, r, k, m) = short_options_lem fields opts idx h l in
    let opts1 = set opts idx f.short_name in
    let opts2 = set opts1 (idx + 1) 0x3a in
    let h1 : length opts1 ≡ 256 = length-set opts idx f.short_name ∙ h in
    let h2 : length opts2 ≡ 256 = length-set opts1 (idx + 1) 0x3a ∙ h1 in
    elim (Bool-cases (f.short_name == 0)) [
      | inl e ↦ (o, i, rw e r, k, m)
      | inr e ↦ elim (dec_lt idx 254) [
        | no full ↦ (o, i, rw (e, le→ltb idx 254 (omega arith)) r, k, m)
        | yes room ↦
            let stored = store_at_lem opts idx f.short_name (omega arith) in
            elim (Bool-cases (is_bool f.type)) [
              | inl b ↦
                  let (o, i, r, k, m) = short_options_lem fields opts1 (idx + 1) h1 (omega arith) in
                  (o, i, rw (e, lt→ltb idx 254 room, stored, b) r, k, m)
              | inr b ↦
                  let (o, i, r, k, m) =
                    short_options_lem fields opts2 (idx + 1 + 1) h2 (omega arith) in
                  let colon = store_at_lem opts1 (idx + 1) 0x3a (omega arith) in
                  (o, i, rw (e, lt→ltb idx 254 room, stored, b, colon) r, k, m)
            ]
      ]
    ]

-- Whatever the fields are, the short options and the 0 behind them stay inside the array of 256
-- bytes.
pub build_short_opts_lem :
    (fields : List Field)
    → (opts : List ℕ) × (build_short_opts fields ≡ some opts) × (length opts ≡ 256)
unfolding build_short_opts
build_short_opts_lem fields =
    let start : List ℕ = 0x68 ∷ replicate 255 0 in
    let size : length start ≡ 256 = ap suc (length-replicate {A = ℕ} 255 0) in
    let (opts, idx, r, h, l) = short_options_lem fields start 1 size (omega arith) in
    (set opts idx 0, rw (r, store_at_lem opts idx 0 (omega arith)), length-set opts idx 0 ∙ h)
