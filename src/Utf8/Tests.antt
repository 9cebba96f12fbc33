-- ===== src/Utf8/Tests.antt =====
-- The code point 0x20AC (a euro sign) among other text.
use ez_language.Prelude.{◌<◌, ◌≤◌, ◌≡◌, ◌⊎◌, refl, true, false, List, [], ◌∷◌, ◌++◌}
use mathlib.Core.List.{flatten}
use ez_language.Bytes.{Byte}
use ez_language.Utf8.{encode, decode, utf8_bytes, reverse_chars, upper_chars, length_chars}
use ez_language.Utf8.Coding.{IsScalar, decode-encode}

abbrev text : List Byte
text = b'a' ∷ 0xE2 ∷ 0x82 ∷ 0xAC ∷ 0xC3 ∷ 0xA9 ∷ []

reversed : reverse_chars text ≡ 0xC3 ∷ 0xA9 ∷ 0xE2 ∷ 0x82 ∷ 0xAC ∷ b'a' ∷ []
unfolding reverse_chars mathlib.Core.List.flatten
reversed = refl

upper : upper_chars text ≡ b'A' ∷ 0xE2 ∷ 0x82 ∷ 0xAC ∷ 0xC3 ∷ 0x89 ∷ []
unfolding upper_chars utf8_bytes
upper = refl

counted : length_chars text ≡ 3
unfolding length_chars
counted = refl

decode-encode_example :
    (IsScalar 0x20AC
      × ((bytes : List Byte) × ((encode 0x20AC text ≡ (true, text ++ bytes))
            × (decode (bytes ++ text) ≡ (0x20AC, text)))))
    ⊎ (((0x10_FFFF < 0x20AC) ⊎ ((0xD800 ≤ 0x20AC) × (0x20AC ≤ 0xDFFF)))
        × (encode 0x20AC text ≡ (false, text)))
decode-encode_example = decode-encode 0x20AC text text
