-- ===== src/Search/Human/Scale.antt =====
-- The unit that `HumanSize` of internal/search/search.go chooses.
use native.Mathlib.Nat.{mul-le-mul_left, pow-succ', pow-suc, mod-eq_of_lt, mul_assoc}
use p2pget.Prelude.{
  leb→le, ltb→lt, ℕ, zero, suc, ◌+◌, ◌*◌, ◌/◌, ◌^◌, ◌≤◌, ◌<◌, [], ◌∷◌, ◌++◌, ltb, leb, pos, Option,
  some, Text, get_elem?, ◌≡◌, ap, sym, refl, arith, Bool-cases, inl, inr, ◌∙◌,
}
use p2pget.Search.Human.{word, unit, scale_loop, scale, human_size, unit_letters}

no_wrap : (div v : ℕ) → 1024 ≤ v → div * v < 2 ^ 64 → word (div * 1024) ≡ div * 1024
no_wrap div v h k = let le : div * 1024 ≤ div * v = grind arith in mod-eq_of_lt (omega arith)

quotient_fits : (div v : ℕ) → div * v < 2 ^ 64 → div * 1024 * (v / 1024) < 2 ^ 64
quotient_fits div v k =
    let le : 1024 * (v / 1024) ≤ v = omega arith in
    let le' : div * (1024 * (v / 1024)) ≤ div * v = mul-le-mul_left div le in
    rw (mul_assoc div 1024 (v / 1024)) (omega arith)

grown :
    (div exp j : ℕ)
    → ◌≡◌ {A = Option (ℕ × ℕ)}
        (some (div * 1024 * 1024 ^ j, exp + 1 + j))
        (some (div * 1024 ^ suc j, exp + suc j))
grown div exp j =
    let factor : div * 1024 * 1024 ^ j ≡ div * 1024 ^ suc j =
      mul_assoc div 1024 (1024 ^ j) ∙ ap (λ t. div * t) (sym (pow-succ' 1024 j)) in
    let rounds : exp + 1 + j ≡ exp + suc j = omega arith in rw (factor, rounds)

settled :
    (div exp : ℕ) → ◌≡◌ {A = Option (ℕ × ℕ)} (some (div, exp)) (some (div * 1024 ^ 0, exp + 0))
settled div exp = ground arith

-- With fuel for `v` the loop ends after `j` divisions, the largest power of 1024 within `v`; the
-- divisor has grown by that power and has not wrapped.
scale_loop_lem :
    (fuel v div exp : ℕ)
    → 0 < v
    → v < 1024 ^ fuel
    → div * v < 2 ^ 64
    → (j : ℕ) × (scale_loop fuel v div exp ≡ some (div * 1024 ^ j, exp + j))
      × (1024 ^ j ≤ v)
      × (v < 1024 * 1024 ^ j)
      × (j < fuel)
unfolding scale_loop
scale_loop_lem zero v div exp some_v fits room = absurd (omega arith)
scale_loop_lem (suc fuel) v div exp some_v fits room = elim (Bool-cases (leb unit v)) [
  | inl more ↦
      let le : 1024 ≤ v = leb→le 1024 v more in
      let (j, eq, lo, hi, short) =
        scale_loop_lem fuel (v / 1024) (div * 1024) (exp + 1) (omega arith)
          (omega (arith, pow-suc 1024 fuel)) (quotient_fits div v room) in
      (
        suc j,
        rw (more, no_wrap div v le room, eq) (grown div exp j),
        omega (arith, pow-suc 1024 j),
        omega (arith, pow-suc 1024 j),
        omega arith,
      )
  | inr done ↦ (0, rw done (settled div exp), omega arith, ground arith, omega arith)
]

-- For every size from 1024 bytes on that an int64 holds, the loop ends, its divisor does not
-- overflow and is the largest power of 1024 within the size, and the exponent has a letter.
scale_lem :
    (n : ℕ)
    → 1024 ≤ n
    → n < 2 ^ 63
    → (e : ℕ) × (scale n ≡ some (1024 * 1024 ^ e, e))
      × (e < 6)
      × (1024 * 1024 ^ e ≤ n)
      × (n < 1024 * (1024 * 1024 ^ e))
unfolding scale
scale_lem n lo hi =
    let (e, eq, le, lt, short) =
      scale_loop_lem 6 (n / 1024) 1024 0 (omega arith) (omega arith) (omega arith) in
    (e, eq ∙ ground arith, short, omega arith, omega arith)

letter : (e : ℕ) → e < 6 → (c : ℕ) × (get_elem? unit_letters e ≡ some c)
letter zero h = (b'K', refl)
letter (suc zero) h = (b'M', refl)
letter (suc (suc zero)) h = (b'G', refl)
letter (suc (suc (suc zero))) h = (b'T', refl)
letter (suc (suc (suc (suc zero)))) h = (b'P', refl)
letter (suc (suc (suc (suc (suc zero))))) h = (b'E', refl)
letter (suc (suc (suc (suc (suc (suc e)))))) h = absurd (omega arith)

large_shown :
    (one_decimal : ℕ → ℕ → Text) (m e c : ℕ)
    → 1024 ≤ suc m
    → scale (suc m) ≡ some (1024 * 1024 ^ e, e)
    → get_elem? unit_letters e ≡ some c
    → human_size one_decimal (pos (suc m))
      ≡ some (one_decimal (suc m) (1024 * 1024 ^ e) ++ b' ' ∷ c ∷ b'B' ∷ [])
unfolding human_size
large_shown one_decimal m e c lo found here = elim (Bool-cases (ltb (suc m) unit)) [
  | inl small ↦ absurd (omega (arith, ltb→lt (suc m) unit small))
  | inr large ↦ rw (large, found, here)
]

-- `HumanSize` shows every int64 from 1024 on in a unit that has a letter, without a panic: it
-- divides by a power of 1024 that is at most the size and more than a 1024th of it.
pub human_size_large :
    (one_decimal : ℕ → ℕ → Text) (n : ℕ)
    → 1024 ≤ n
    → n < 2 ^ 63
    → (e : ℕ) × (c : ℕ) × (human_size one_decimal (pos n)
        ≡ some (one_decimal n (1024 * 1024 ^ e) ++ b' ' ∷ c ∷ b'B' ∷ []))
      × (get_elem? unit_letters e ≡ some c)
      × (1024 * 1024 ^ e ≤ n)
      × (n < 1024 * (1024 * 1024 ^ e))
human_size_large one_decimal zero lo hi = absurd (omega arith)
human_size_large one_decimal (suc m) lo hi =
    let (e, found, short, le, lt) = scale_lem (suc m) lo hi in
    let (c, here) = letter e short in
    (e, c, large_shown one_decimal m e c lo found here, here, le, lt)
