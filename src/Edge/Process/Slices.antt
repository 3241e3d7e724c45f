-- ===== src/Edge/Process/Slices.antt =====
-- The slices of strings (host/process/fx_process.c, `fx_proc_slice`).
use fxlang.Prelude.{
  ℕ, zero, suc, ◌-◌, ◌^◌, ◌≡◌, ◌≤◌, ◌<◌, refl, sym, ap, ◌∙◌, Option, none, some, [], ◌∷◌, arith, ℤ,
  pos, negsuc, IsI32, to_i32, to_i32_of_IsI32, take, drop, length, Text, dec_lt,
}
use fxlang.Edge.Process.{fx_proc_slice}

length-drop : (n : ℕ) (s : Text) → length (drop n s) ≡ length s - n
length-drop zero s = omega arith
length-drop (suc n) [] = omega arith
length-drop (suc n) (c ∷ s) = omega (arith, length-drop n s)

take-all : (n : ℕ) (s : Text) → length s ≤ n → take n s ≡ s
take-all zero [] h = refl
take-all zero (c ∷ s) h = absurd (omega arith)
take-all (suc n) [] h = refl
take-all (suc n) (c ∷ s) h = ap (λ t. c ∷ t) (take-all n s (omega arith))

drop-all : (n : ℕ) (s : Text) → length s ≤ n → drop n s ≡ []
drop-all zero [] h = refl
drop-all zero (c ∷ s) h = absurd (omega arith)
drop-all (suc n) [] h = refl
drop-all (suc n) (c ∷ s) h = drop-all n s (omega arith)

-- The bytes from index `lo` up to `hi`, as far as there are any.
abbrev between : ℤ → ℤ → Text → Text
between (pos lo) (pos hi) s = take (hi - lo) (drop lo s)
between (pos lo) (negsuc hi) s = []
between (negsuc lo) hi s = []

abbrev pub slice : Option Text → ℤ → ℤ → Text
slice none lo hi = []
slice (some s) lo hi = between lo hi s

take_zero : {n : ℕ} (s : Text) → n ≡ 0 → take n s ≡ []
take_zero s e = ap (λ n. take n s) e

module _ (dup : Text → Option Text) (copies : (t : Text) → dup t ≡ some t) (s : Text) (lo hi : ℕ)
    (small : hi < 2 ^ 31) where
  slice-backward :
      hi < lo → fx_proc_slice dup (some s) (pos lo) (pos hi) ≡ some (take (hi - lo) (drop lo s))
  unfolding fx_proc_slice
  slice-backward back = ground arith ∙ ap some (sym (take_zero (drop lo s) (omega arith)))

  slice-within :
      lo ≤ hi
      → hi ≤ length s
      → fx_proc_slice dup (some s) (pos lo) (pos hi) ≡ some (take (hi - lo) (drop lo s))
  unfolding fx_proc_slice
  slice-within order fits = elim (dec_lt lo hi) [
    | yes some_bytes ↦ ground (arith, copies (take (hi - lo) (drop lo s)))
    | no none_left ↦ ground arith ∙ ap some (sym (take_zero (drop lo s) (omega arith)))
  ]

  slice-clamped :
      lo ≤ hi
      → length s < hi
      → fx_proc_slice dup (some s) (pos lo) (pos hi) ≡ some (take (hi - lo) (drop lo s))
  unfolding fx_proc_slice
  slice-clamped order over =
      let whole : to_i32 (pos (length s)) ≡ pos (length s) =
        to_i32_of_IsI32 (pos (length s)) (omega arith) in
      let rest = drop lo s in
      let all = take-all (hi - lo) (drop lo s) (omega (arith, length-drop lo s)) in
      let all' = take-all (length s - lo) (drop lo s) (omega (arith, length-drop lo s)) in
      elim (dec_lt lo (length s)) [
        | yes some_bytes ↦ ground (arith, whole, all, all', copies (drop lo s), ap dup all')
        | no none_left ↦
            let nothing = drop-all lo s (omega arith) in ground (arith, whole, all, nothing)
      ]

-- When the copy of a string succeeds, `fx_proc_slice` gives the bytes of the string from `lo` up to
-- `hi`, and reads no byte outside of it, for all int32_t `lo` and `hi`: those that there are where
-- `hi` lies behind the end, and none for NULL, for a negative `lo` and for `hi` not above `lo`.
pub fx_proc_slice-slice :
    (dup : Text → Option Text) (s : Option Text) (lo hi : ℤ)
    → ((t : Text) → dup t ≡ some t)
    → IsI32 lo
    → IsI32 hi
    → fx_proc_slice dup s lo hi ≡ some (slice s lo hi)
unfolding fx_proc_slice
fx_proc_slice-slice dup none lo hi copies lo_small hi_small = refl
fx_proc_slice-slice dup (some s) (negsuc lo) hi copies lo_small hi_small = ground arith
fx_proc_slice-slice dup (some s) (pos lo) (negsuc hi) copies lo_small hi_small = ground arith
fx_proc_slice-slice dup (some s) (pos lo) (pos hi) copies lo_small hi_small = elim (dec_lt hi lo) [
  | yes back ↦ slice-backward dup copies s lo hi hi_small back
  | no order ↦ elim (dec_lt (length s) hi) [
    | yes over ↦ slice-clamped dup copies s lo hi hi_small (omega arith) over
    | no fits ↦ slice-within dup copies s lo hi hi_small (omega arith) (omega arith)
  ]
]
