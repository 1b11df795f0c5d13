-- ===== src/Desktop/Media/Size.antt =====
-- apps/desktop/media.go, humanSize and formatDuration: sizes and lengths as text.
use native.Mathlib.Nat.{pow-suc, pow-zero, mul_assoc}
use mathlib.Core.Option
use zchat.Prelude.{
  Bool-cases, inl, inr, get_elem?, [], ◌∷◌, ◌^◌, ap, ◌∙◌, ℕ, zero, suc, ◌+◌, ◌*◌, ◌/◌, ◌≤◌, ◌<◌,
  String, ◌≡◌, refl, Option, none, some, ltb, leb, arith, if◌then◌else◌,
}
use zchat.Prelude.Int.{ℤ, pos, negsuc}

-- What humanSize prints: the bytes, or the quotient `size / div` with the unit's letter.
pub data Size : Type 0 where
  bytes : ℤ → Size
  scaled : ℕ → ℕ → String → Size

-- `"KMGT"[exp]`
abbrev pub unit_letter : ℕ → Option String
unit_letter e = get_elem? ("K" ∷ "M" ∷ "G" ∷ "T" ∷ []) e

-- The loop of humanSize with its `n`, `div` and `exp`.
unfoldable pub scale : ℕ → ℕ → ℕ → ℕ → ℕ × ℕ
scale zero n d e = (d, e)
scale (suc fuel) n d e =
    let rest = scale fuel (n / 1024) (d * 1024) (suc e) in if leb 1024 n then rest else (d, e)

-- More rounds than a 63-bit size can take.
abbrev pub size_rounds : ℕ
size_rounds = 6

-- The quotient and the unit; none is an index out of range.
abbrev pub shown : ℕ → ℕ × ℕ → Option Size
shown n (d, e) = Option.map (scaled n d) (unit_letter e)

-- humanSize; none is the panic of an index out of range.
unfoldable pub human_size : ℤ → Option Size
unfolding scale
human_size (negsuc k) = some (bytes (negsuc k))
human_size (pos n) =
    if ltb n 1024 then some (bytes (pos n)) else shown n (scale size_rounds (n / 1024) 1024 0)

scale_small : (f n d e : ℕ) → n < 1024 → scale f n d e ≡ (d, e)
unfolding scale
scale_small zero n d e l = refl
scale_small (suc f) n d e l = ground arith

scale_step : (f n d e : ℕ) → 1024 ≤ n → scale (suc f) n d e ≡ scale f (n / 1024) (d * 1024) (suc e)
unfolding scale
scale_step f n d e l = ground arith

one_le_pow : (k : ℕ) → 1 ≤ 1024 ^ k
one_le_pow zero = omega arith
one_le_pow (suc k) = omega (arith, one_le_pow k, pow-suc 1024 k)

both : {a b c d : ℕ} → a ≡ b → c ≡ d → ◌≡◌ {A = ℕ × ℕ} (a, c) (b, d)
both p q = λ i. (p i, q i)

-- After k rounds the quotient is below the unit.
scale_lem :
    (k f n d e : ℕ)
    → k ≤ f
    → 1024 ^ k ≤ n
    → n < 1024 ^ suc k
    → scale f n d e ≡ (d * 1024 ^ k, e + k)
scale_lem zero f n d e l lo hi =
    scale_small f n d e (omega (arith, pow-suc 1024 0, pow-zero 1024))
    ∙ both (omega arith) (omega arith)
scale_lem (suc k) zero n d e l lo hi = ground arith
scale_lem (suc k) (suc f) n d e l lo hi =
    let p = pow-suc 1024 k in
    let q = pow-suc 1024 (suc k) in
    let low : 1024 ^ k ≤ n / 1024 = omega arith in
    let high : n / 1024 < 1024 ^ suc k = omega arith in
    scale_step f n d e (omega (arith, one_le_pow k))
    ∙ scale_lem k f (n / 1024) (d * 1024) (suc e) (omega arith) low high
    ∙ both (mul_assoc d 1024 (1024 ^ k) ∙ ap (λ (x : ℕ). d * x) (omega (arith, pow-suc 1024 k)))
        (omega arith)

large : (n : ℕ) (s : Option Size) → 1024 ≤ n → (if ltb n 1024 then some (bytes (pos n)) else s) ≡ s
large n s l = ground arith

-- A size from 1024^(k+1) up to 1024^(k+2) is shown in the unit of that power, in which it is at
-- least 1 and below 1024, if the list of units has one; the loop of humanSize gets there in k
-- rounds. Where the list has none, from 1024^5 on, humanSize panics.
pub human_size-unit :
    (k n : ℕ)
    → k ≤ size_rounds
    → 1024 ^ suc k ≤ n
    → n < 1024 ^ suc (suc k)
    → human_size (pos n) ≡ Option.map (scaled n (1024 ^ suc k)) (unit_letter k)
unfolding human_size
human_size-unit k n l lo hi =
    let p = pow-suc 1024 k in
    let q = pow-suc 1024 (suc k) in
    let e = scale_lem k size_rounds (n / 1024) 1024 0 l (omega arith) (omega arith) in
    large n _ (omega (arith, one_le_pow k)) ∙ ap (shown n) (e ∙ both (omega arith) (omega arith))

-- From 2^50 bytes on, up to the largest int64, humanSize panics.
pub human_size-panics :
    (n : ℕ) → 1125899906842624 ≤ n → n < 9223372036854775808 → human_size (pos n) ≡ none
human_size-panics n lo hi = elim (Bool-cases (ltb n 1152921504606846976)) [
  | inl e ↦ human_size-unit 4 n (omega arith) lo (ground arith)
  | inr e ↦ human_size-unit 5 n (omega arith) (ground arith) (omega arith)
]
