-- ===== src/Desktop/Emoji.antt =====
-- apps/desktop/emoji.go, spliceRunes. A Go string is given by its runes.
use zchat.Prelude.{
  ℕ, ◌+◌, ◌-◌, ◌≤◌, ◌≡◌, refl, sym, List, ◌++◌, length, take, drop, ltb, arith, length-append,
  length-take, take-append-drop, if◌then◌else◌, take-append, drop-append,
}
use mathlib.Core.List.{append_assoc}
use zchat.Prelude.Int.{ℤ, pos, negsuc}

-- The offset, or the end of the text where it lies outside.
abbrev pub clamped : ℕ → ℤ → ℕ
clamped n (pos p) = if ltb n p then n else p
clamped n (negsuc k) = n

-- spliceRunes, with the position of the caret.
unfoldable pub splice_runes : List ℕ → List ℕ → ℤ → List ℕ × ℕ
splice_runes body text position =
    let p = clamped (length body) position in
    (take p body ++ (text ++ drop p body), p + length text)

clamped-le : (n : ℕ) (p : ℤ) → clamped n p ≤ n
clamped-le n (pos p) = ground arith
clamped-le n (negsuc k) = omega arith

-- The caret stands right behind the inserted text, and without that text the body is what it was.
pub splice_runes_lem :
    (body text : List ℕ) (position : ℤ)
    → let (updated, caret) = splice_runes body text position in
      (take caret updated ≡ take (caret - length text) updated ++ text)
      × (take (caret - length text) updated ++ drop caret updated ≡ body)
unfolding splice_runes
splice_runes_lem body text position =
    parts (take (clamped (length body) position) body) (drop (clamped (length body) position) body)
      (clamped (length body) position)
      (omega (
        arith,
        length-take (clamped (length body) position) body,
        clamped-le (length body) position,
      ))
      (take-append-drop (clamped (length body) position) body)
  where
    parts :
        (front back : List ℕ) (p : ℕ)
        → p ≡ length front
        → front ++ back ≡ body
        → (take (p + length text) (front ++ (text ++ back))
            ≡ take (p + length text - length text) (front ++ (text ++ back)) ++ text)
          × (take (p + length text - length text) (front ++ (text ++ back))
                ++ drop (p + length text) (front ++ (text ++ back))
              ≡ body)
    parts front back p e h =
        let before : p + length text - length text ≡ length front = omega arith in
        let caret : p + length text ≡ length (front ++ text) =
          omega (arith, length-append front text) in
        rw
          (
            before,
            caret,
            take-append front (text ++ back),
            sym (append_assoc front text back),
            take-append (front ++ text) back,
            drop-append (front ++ text) back,
          )
          (refl, h)
