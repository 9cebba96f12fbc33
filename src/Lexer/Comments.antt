-- ===== src/Lexer/Comments.antt =====
-- `skipLineComment` and `skipBlockComment` of src/lexer/Lexer.cpp. The fuel of a loop is the length
-- of the rest of the source: each round takes a byte.
use ez_language.Prelude.{ℕ, zero, suc, ◌-◌, not, ◌&&◌, ◌||◌, ◌==◌, if◌then◌else◌, length}
use ez_language.Lexer.State.{
  Lexer, comment_end, is_at_end, peek, peek_next, advance, advance_while, error_at,
}

unfoldable pub skip_line_comment : Lexer → Lexer
unfolding advance_while
skip_line_comment s = advance_while (λ c. not (c == b'\n')) (length s.rest) s

-- A round of the loop, with the depth of nesting.
unfoldable pub block_step : ℕ → Lexer → ℕ × Lexer
unfolding advance peek peek_next
block_step nesting s =
    if peek s == b'/' && peek_next s == b'*'
    then (suc nesting, advance (advance s))
    else if peek s == b'*' && peek_next s == b'/'
    then (nesting - 1, advance (advance s))
    else (nesting, advance s)

unfoldable pub block_loop : ℕ → ℕ → Lexer → ℕ × Lexer
unfolding block_step is_at_end
block_loop zero nesting s = (nesting, s)
block_loop (suc fuel) nesting s =
    if is_at_end s || nesting == 0
    then (nesting, s)
    else block_loop fuel (block_step nesting s).0 (block_step nesting s).1

unfoldable pub close_comment : ℕ → ℕ → ℕ × Lexer → Lexer
unfolding error_at
close_comment line column (nesting, s) =
    if nesting == 0 then s else error_at comment_end line column s

unfoldable pub skip_block_comment : Lexer → Lexer
unfolding block_loop close_comment
skip_block_comment s = close_comment s.line (s.column - 2) (block_loop (length s.rest) 1 s)
