-- ===== src/Text/Utf8.antt =====
-- Strings as encoding/json writes them: a byte that does not belong to a rune in UTF-8 becomes U+FFFD.
use joyvend_secretvault.Shared.{
  ℕ, ◌-◌, zero, suc, ◌≡◌, refl, ap, Bool, true, ◌&&◌, ◌||◌, [], ◌∷◌, ◌++◌, arith, ltb, leb, ◌==◌,
  if◌then◌else◌, all,
}
use joyvend_secretvault.Text.{Bytes, is_ascii}

-- The bytes behind the first, 0 where the text ends: that is no continuation byte.
abbrev byte_at : ℕ → Bytes → ℕ
byte_at n [] = 0
byte_at zero (c ∷ s) = c
byte_at (suc n) (c ∷ s) = byte_at n s

abbrev within : ℕ → ℕ → ℕ → Bool
within lo hi c = leb lo c && leb c hi

abbrev is_continuation : ℕ → Bool
is_continuation c = within 0x80 0xbf c

-- The number of bytes of the rune that begins with a byte, by the table of the ranges of RFC 3629; 0
-- where none does.
unfoldable pub rune_width : ℕ → Bytes → ℕ
rune_width a rest =
    let b = byte_at 0 rest in
    let two = is_continuation (byte_at 1 rest) in
    let three = two && is_continuation (byte_at 2 rest) in
    if ltb a 0x80
    then 1
    else if within 0xc2 0xdf a && is_continuation b
    then 2
    else if a == 0xe0 && within 0xa0 0xbf b && two
    then 3
    else if (within 0xe1 0xec a || within 0xee 0xef a) && is_continuation b && two
    then 3
    else if a == 0xed && within 0x80 0x9f b && two
    then 3
    else if a == 0xf0 && within 0x90 0xbf b && three
    then 4
    else if within 0xf1 0xf3 a && is_continuation b && three
    then 4
    else if a == 0xf4 && within 0x80 0x8f b && three
    then 4
    else 0

abbrev pub replacement : Bytes
replacement = 0xef ∷ 0xbf ∷ 0xbd ∷ []

-- The first number is that of the bytes that still belong to the rune before.
unfoldable pub json_text_from : ℕ → Bytes → Bytes
unfolding rune_width
json_text_from n [] = []
json_text_from (suc n) (c ∷ s) = c ∷ json_text_from n s
json_text_from zero (c ∷ s) =
    let width = rune_width c s in
    let rest = json_text_from (width - 1) s in if width == 0 then replacement ++ rest else c ∷ rest

-- What a reader gets of a string that encoding/json has written.
unfoldable pub json_text : Bytes → Bytes
unfolding json_text_from
json_text s = json_text_from 0 s

-- A text of ASCII arrives as it is.
pub json_text-ascii : (s : Bytes) → all is_ascii s ≡ true → json_text s ≡ s
unfolding json_text
json_text-ascii [] h = refl
json_text-ascii (c ∷ s) h =
    let first : rune_width c s ≡ 1 = unfold rune_width in ground arith in
    rw first (ap (λ t. c ∷ t) (json_text-ascii s (ground arith)))
