-- ===== src/Utils/Tests.antt =====
-- `nameDistance` on written examples, and an instance of its theorem.
use ez_language.Prelude.{[], ◌∷◌, ◌≡◌, refl}
use ez_language.Bytecode.Types.{Text}
use ez_language.Bytecode.Pool.{text_eq}
use ez_language.Utils.Distance.{
  to_lower, cost, next_row, least, last_cell, rows, first_row, name_distance,
}
use ez_language.Utils.Levenshtein.{levenshtein, backwards, Agree, name_distance-levenshtein}

abbrev when : Text
when = b'w' ∷ b'h' ∷ b'e' ∷ b'n' ∷ []

abbrev misspelled : Text
misspelled = b'W' ∷ b'e' ∷ b'h' ∷ b'n' ∷ []

-- Two letters that are swapped count twice, and the case of a letter does not count.
swapped : name_distance misspelled when 2 ≡ 2
unfolding name_distance text_eq rows first_row next_row least last_cell cost to_lower
swapped = refl

cut : name_distance (b'a' ∷ b'b' ∷ b'c' ∷ []) when 2 ≡ 3
unfolding name_distance text_eq rows first_row next_row least last_cell cost to_lower
cut = refl

-- More than one above the limit.
beyond :
    name_distance (b'a' ∷ b'a' ∷ b'a' ∷ b'a' ∷ []) (b'a' ∷ b'a' ∷ b'x' ∷ b'x' ∷ b'x' ∷ b'x' ∷ []) 2
    ≡ 4
unfolding name_distance text_eq rows first_row next_row least last_cell cost to_lower
beyond = refl

name_distance-levenshtein_example :
    Agree 2
      (name_distance misspelled when 2)
      (levenshtein (backwards misspelled []) (backwards when []))
name_distance-levenshtein_example = name_distance-levenshtein misspelled when 2
