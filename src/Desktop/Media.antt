-- ===== src/Desktop/Media.antt =====
-- apps/desktop/media.go: how an attachment is labelled and how large its preview is.
pub mod Size
pub mod Label
use native.Mathlib.Nat.{div-le_of_le-mul, mul_comm, mul-le-mul_left, le_trans}
use zchat.Prelude.{
  ℕ, zero, suc, ◌+◌, ◌*◌, ◌/◌, ◌%◌, ◌≤◌, ◌<◌, ◌^◌, String, ◌≡◌, refl, subst, Bool, true, false, not,
  ◌&&◌, ◌||◌, ◌↔◌, Option, none, some, ltb, leb, arith, ◌==◌, eq_iff, if◌then◌else◌, Bool-cases,
  inl, inr,
}
use zchat.Prelude.Int.{ℤ, pos, negsuc}

abbrev pub kind_sticker : String
kind_sticker = "sticker"

abbrev pub kind_audio : String
kind_audio = "audio"

-- isVisualMedia
unfoldable pub is_visual_media : String → Bool
is_visual_media kind = kind == "image" || kind == kind_sticker || kind == "video"

-- isDecodableImage
unfoldable pub is_decodable_image : String → Bool
is_decodable_image kind = kind == "image" || kind == kind_sticker

-- isViewableMedia
unfoldable pub is_viewable_media : String → Bool
is_viewable_media kind = kind == "image" || kind == "video"

-- mediaKindNoun
unfoldable pub media_kind_noun : String → String
media_kind_noun kind =
    if kind == "image"
    then "photo"
    else if kind == "video"
    then "video"
    else if kind == kind_audio
    then "audio"
    else if kind == kind_sticker
    then "sticker"
    else if kind == "document"
    then "document"
    else "file"

-- The box of a kind of attachment: previewMaxWidth and previewMaxHeight, or stickerMaxSize twice.
abbrev pub max_width : Bool → ℕ
max_width sticker = if sticker then 180 else 320

abbrev pub max_height : Bool → ℕ
max_height sticker = if sticker then 180 else 400

abbrev pub preview_min_width : ℕ
preview_min_width = 140

-- The four conditional assignments of previewSize to `width` and `height`.
abbrev pub fit_width : Bool → ℕ × ℕ → ℕ × ℕ
fit_width s (w, h) = if ltb (max_width s) w then (max_width s, h * max_width s / w) else (w, h)

abbrev pub fit_height : Bool → ℕ × ℕ → ℕ × ℕ
fit_height s (w, h) = if ltb (max_height s) h then (w * max_height s / h, max_height s) else (w, h)

abbrev pub widen : Bool → ℕ × ℕ → ℕ × ℕ
widen s (w, h) = if not s && ltb w preview_min_width then (preview_min_width, h) else (w, h)

abbrev pub heighten : ℕ × ℕ → ℕ × ℕ
heighten (w, h) = if ltb h 1 then (w, 1) else (w, h)

abbrev pub fit : Bool → ℤ → ℤ → ℕ × ℕ
fit s (pos (suc w)) (pos (suc h)) = heighten (widen s (fit_height s (fit_width s (suc w, suc h))))
fit s _ _ = (max_width s, max_width s * 3 / 4)

-- previewSize, of the kind, the width and the height.
unfoldable pub preview_size : String → ℤ → ℤ → ℕ × ℕ
preview_size kind width height = fit (kind == kind_sticker) width height

-- A width and a height that the layout can use.
pub record IsFitted (s : Bool) (p : ℕ × ℕ) : Type 0 where
  pub narrow : p.0 ≤ max_width s
  pub low : p.1 ≤ max_height s
  pub visible : 1 ≤ p.1
  pub wide : s ≡ false → preview_min_width ≤ p.0

fit_width-le : (s : Bool) (w h : ℕ) → (fit_width s (w, h)).0 ≤ max_width s
fit_width-le s w h = ground arith

over : (s : Bool) (w h : ℕ) → max_height s ≤ h → w * max_height s ≤ h * w
over s w h l = subst (λ (x : ℕ). w * max_height s ≤ x) (mul_comm w h) (mul-le-mul_left w l)

fit_height-le :
    (s : Bool) (w h : ℕ) → ((fit_height s (w, h)).0 ≤ w) × ((fit_height s (w, h)).1 ≤ max_height s)
fit_height-le s w h = elim (Bool-cases (ltb (max_height s) h)) [
  | inl e ↦ rw e (div-le_of_le-mul h (over s w h (ground arith)), omega arith)
  | inr e ↦ rw e (omega arith, ground arith)
]

fitted :
    (s : Bool) (w h : ℕ)
    → w ≤ max_width s
    → h ≤ max_height s
    → IsFitted s (heighten (widen s (w, h)))
fitted true w h l m = ground arith
fitted false w h l m = ground arith

fallback-IsFitted : (s : Bool) → IsFitted s (max_width s, max_width s * 3 / 4)
fallback-IsFitted true = ground arith
fallback-IsFitted false = ground arith

fit-IsFitted : (s : Bool) (w h : ℤ) → IsFitted s (fit s w h)
fit-IsFitted s (pos (suc w)) (pos (suc h)) =
    let p = fit_width s (suc w, suc h) in
    let (narrower, low) = fit_height-le s p.0 p.1 in
    fitted s _ _ (le_trans narrower (fit_width-le s (suc w) (suc h))) low
fit-IsFitted s (pos (suc w)) (pos zero) = fallback-IsFitted s
fit-IsFitted s (pos (suc w)) (negsuc h) = fallback-IsFitted s
fit-IsFitted s (pos zero) h = fallback-IsFitted s
fit-IsFitted s (negsuc w) h = fallback-IsFitted s

-- A preview fits its box, is at least one pixel high and, unless it is a sticker's, at least 140
-- wide, whatever dimensions are reported.
pub preview_size-IsFitted :
    (kind : String) (w h : ℤ) → IsFitted (kind == kind_sticker) (preview_size kind w h)
unfolding preview_size
preview_size-IsFitted kind w h = fit-IsFitted (kind == kind_sticker) w h
