-- ===== src/Desktop/Media/Label.antt =====
-- apps/desktop/media.go: the second line of a file row and the label of its download button.
use zchat.Prelude.{
  ℕ, ◌+◌, ◌*◌, ◌/◌, ◌%◌, ◌≡◌, String, ◌&&◌, Option, none, some, ◌==◌, ltb, arith, if◌then◌else◌,
  Bool-cases, inl, inr,
}
use zchat.Prelude.Int.{ℤ, pos, negsuc, ltb_ℤ, leb_ℤ}
use zchat.Desktop.Media.{kind_audio, media_kind_noun}
use zchat.Desktop.Media.Size.{Size, human_size}

-- What formatDuration prints: hours, minutes and seconds, or minutes and seconds.
pub data Clock : Type 0 where
  long : ℕ → ℕ → ℕ → Clock
  short : ℕ → ℕ → Clock

abbrev pub clock_of : ℕ → Clock
clock_of n =
    if ltb 0 (n / 3600) then long (n / 3600) (n / 60 % 60) (n % 60) else short (n / 60) (n % 60)

-- formatDuration
unfoldable pub format_duration : ℤ → Clock
format_duration (negsuc k) = clock_of 0
format_duration (pos n) = clock_of n

-- What fileSubtitle and downloadLabel print; none is the panic of humanSize.
pub data Label : Type 0 where
  duration : Clock → Label
  noun : String → Label
  size : Size → Label
  noun_and_size : String → Size → Label

abbrev pub sized : (Size → Label) → Option Size → Option Label
sized f none = none
sized f (some s) = some (f s)

-- fileSubtitle, of the kind, the duration and the size.
unfoldable pub file_subtitle : String → ℤ → ℤ → Option Label
file_subtitle kind seconds bytes =
    if kind == kind_audio && ltb_ℤ (pos 0) seconds
    then some (duration (format_duration seconds))
    else if leb_ℤ bytes (pos 0)
    then some (noun (media_kind_noun kind))
    else sized size (human_size bytes)

-- downloadLabel
unfoldable pub download_label : String → ℤ → Option Label
download_label kind bytes =
    if leb_ℤ bytes (pos 0)
    then some (noun (media_kind_noun kind))
    else sized (noun_and_size (media_kind_noun kind)) (human_size bytes)

-- The seconds that a clock shows.
abbrev pub seconds_of : Clock → ℕ
seconds_of (long h m s) = h * 3600 + m * 60 + s
seconds_of (short m s) = m * 60 + s

-- The label of a clip shows its length to the second.
pub seconds_of-format_duration : (n : ℕ) → seconds_of (format_duration (pos n)) ≡ n
unfolding format_duration
seconds_of-format_duration n = elim (Bool-cases (ltb 0 (n / 3600))) [
  | inl e ↦ rw e (omega arith)
  | inr e ↦ rw e (omega arith)
]
