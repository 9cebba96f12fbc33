-- ===== src/Lexer/Progress.antt =====
-- The loops of src/lexer/Lexer.cpp give no byte back: comments, and what the others share.
pub mod Tokens
pub mod Total
pub mod Depth
pub mod Short
pub mod Strings
pub mod Words
pub mod Templates
use ez_language.Prelude.{
  ℕ, zero, suc, ◌+◌, ◌-◌, ◌≤◌, ◌<◌, ◌≡◌, refl, sym, ap, ◌∙◌, Bool, true, false, List, [], ◌∷◌,
  arith, length, drop, length-drop, if◌then◌else◌, ◌==◌, ◌⊎◌, inl, inr, Bool-cases,
}
use ez_language.Bytes.{Byte}
use ez_language.Lexer.Kinds.{TokenKind}
use ez_language.Lexer.State.{
  Lexer, Message, Literal, tail, take_byte, advance_from, advance, add_token, error_at, error,
  advance_while, is_at_end, peek, unless_returned, is_empty,
}
use ez_language.Lexer.Comments.{
  block_step, block_loop, close_comment, skip_line_comment, skip_block_comment,
}

-- The bytes that are left.
abbrev pub left : Lexer → ℕ
left s = length s.rest

length-tail : (s : List Byte) → length (tail s) ≡ length s - 1
length-tail [] = omega arith
length-tail (c ∷ s) = omega arith

advance_from-rest :
    (bytes : List Byte) (s : Lexer) → s.rest ≡ bytes → (advance_from bytes s).rest ≡ tail bytes
unfolding advance_from
advance_from-rest [] s e = e
advance_from-rest (c ∷ rest) s e = elim (Bool-cases (c == b'\n')) [
  | inl h ↦ rw (h)
  | inr h ↦ rw (h)
]

pub advance-left : (s : Lexer) → left (advance s) ≡ left s - 1
unfolding advance
advance-left s = rw (advance_from-rest s.rest s refl) (length-tail s.rest)

pub is_at_end-left : (s : Lexer) → is_at_end s ≡ false → 0 < left s
unfolding is_at_end
is_at_end-left s h = go s.rest h
  where
    go : (bytes : List Byte) → is_empty bytes ≡ false → 0 < length bytes
    go [] h = ground arith
    go (c ∷ bytes) h = omega arith

pub is_at_end-rest : (s : Lexer) → is_at_end s ≡ true → s.rest ≡ []
unfolding is_at_end
is_at_end-rest s h = go s.rest h
  where
    go : (bytes : List Byte) → is_empty bytes ≡ true → bytes ≡ []
    go [] h = refl
    go (c ∷ bytes) h = ground arith

pub advance_while-left :
    (test : Byte → Bool) (fuel : ℕ) (s : Lexer) → left (advance_while test fuel s) ≤ left s
unfolding advance_while
advance_while-left test zero s = omega arith
advance_while-left test (suc fuel) s =
    ground (arith, advance_while-left test fuel (advance s), advance-left s)

block_step-left : (n : ℕ) (s : Lexer) → left (block_step n s).1 ≤ left s - 1
unfolding block_step
block_step-left n s = ground (arith, advance-left s, advance-left (advance s))

block_loop-left : (fuel n : ℕ) (s : Lexer) → left (block_loop fuel n s).1 ≤ left s
unfolding block_loop
block_loop-left zero n s = omega arith
block_loop-left (suc fuel) n s =
    ground (arith, block_loop-left fuel (block_step n s).0 (block_step n s).1, block_step-left n s)

pub skip_block_comment-left : (s : Lexer) → left (skip_block_comment s) ≤ left s
unfolding skip_block_comment
skip_block_comment-left s = ground (arith, block_loop-left (length s.rest) 1 s)
