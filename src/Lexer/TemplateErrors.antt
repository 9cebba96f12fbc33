-- ===== src/Lexer/TemplateErrors.antt =====
-- What becomes of an error inside an expression of a template (src/lexer/Lexer.cpp).
use ez_language.Prelude.{
  ℕ, ◌≡◌, refl, sym, ap, subst, ◌==◌, ◌∙◌, Bool, true, false, List, [], ◌∷◌, ◌++◌, append_assoc,
  append-nil, inl, inr, Bool-cases, Option, none, some,
}
use mathlib.Core.Bool.{true≢false}
use ez_language.Bytes.{Byte}
use ez_language.Lexer.State.{Lexer, Report, advance, advance_from, take_byte, is_at_end, ◌>>=◌}
use ez_language.Lexer.Templates.{
  Part, plain, expr, Scanned, push, has_expr, emit_inner, emit_part, emit_parts, emit_template,
  end_template,
}

abbrev pub reports_of : Option Lexer → List Report
reports_of none = []
reports_of (some s) = s.reports

-- What the lexers of the expressions among the parts report.
abbrev pub inner_reports : (List Byte → Option Lexer) → List Part → List Report
inner_reports sub [] = []
inner_reports sub (plain v ∷ ps) = inner_reports sub ps
inner_reports sub (expr v ∷ ps) = reports_of (sub v) ++ inner_reports sub ps

-- In the result, where there is one, `hadError` is that of `s`, and `more` is reported.
abbrev Keeps : Lexer → List Report → Option Lexer → Type 0
Keeps s more none = Unit
Keeps s more (some t) = (t.had_error ≡ s.had_error) × (t.reports ≡ s.reports ++ more)

bind-Keeps :
    (s : Lexer) (a b : List Report) (o : Option Lexer) (f : Lexer → Option Lexer)
    → Keeps s a o
    → ((t : Lexer) → Keeps t b (f t))
    → Keeps s (a ++ b) (o >>= f)
unfolding ◌>>=◌
bind-Keeps s a b none f h k = tt
bind-Keeps s a b (some t) f (h, r) k = then_same (f t) (k t)
  where
    then_same : (o : Option Lexer) → Keeps t b o → Keeps s (a ++ b) o
    then_same none l = tt
    then_same (some u) (l, q) = (l ∙ h, q ∙ ap (λ x. x ++ b) r ∙ append_assoc s.reports a b)

Keeps-nil : (s : Lexer) (m : List Report) (o : Option Lexer) → Keeps s (m ++ []) o → Keeps s m o
Keeps-nil s m o h = subst (λ r. Keeps s r o) (append-nil m) h

advance-same :
    (s : Lexer) → ((advance s).had_error ≡ s.had_error) × ((advance s).reports ≡ s.reports)
unfolding advance advance_from take_byte
advance-same s = go s.rest
  where
    go :
        (bytes : List Byte)
        → ((advance_from bytes s).had_error ≡ s.had_error)
          × ((advance_from bytes s).reports ≡ s.reports)
    go [] = (refl, refl)
    go (c ∷ bytes) = elim (Bool-cases (c == b'\n')) [
      | inl h ↦ rw (h) (refl, refl)
      | inr h ↦ rw (h) (refl, refl)
    ]

emit_inner-Keeps :
    (line column : ℕ) (s : Lexer) (o : Option Lexer)
    → Keeps s (reports_of o) (emit_inner line column s o)
unfolding emit_inner push
emit_inner-Keeps line column s none = tt
emit_inner-Keeps line column s (some inner) = (refl, refl)

no_expr :
    (sub : List Byte → Option Lexer) (ps : List Part)
    → has_expr ps ≡ false
    → inner_reports sub ps ≡ []
unfolding has_expr
no_expr sub [] h = refl
no_expr sub (plain v ∷ ps) h = no_expr sub ps h
no_expr sub (expr v ∷ ps) h = absurd (true≢false h)

module _ (sub : List Byte → Option Lexer) where
  then_parts :
      (line column : ℕ) (p : Part) (ps : List Part) (s : Lexer)
      → ((t : Lexer) → Keeps t (inner_reports sub ps) (emit_parts sub false line column ps t))
      → Keeps s
          (inner_reports sub (p ∷ ps))
          (emit_part sub line column p s >>= emit_parts sub false line column ps)
  unfolding emit_part push
  then_parts line column (plain v) ps s ih =
      bind-Keeps s [] (inner_reports sub ps) (emit_part sub line column (plain v) s) _
        (refl, sym (append-nil s.reports)) ih
  then_parts line column (expr v) ps s ih =
      bind-Keeps s (reports_of (sub v)) (inner_reports sub ps)
        (emit_part sub line column (expr v) s) _ (emit_inner-Keeps line column s (sub v)) ih

  emit_parts-Keeps :
      (first : Bool) (line column : ℕ) (ps : List Part) (s : Lexer)
      → Keeps s (inner_reports sub ps) (emit_parts sub first line column ps s)
  unfolding emit_parts push
  emit_parts-Keeps first line column [] s = (refl, sym (append-nil s.reports))
  emit_parts-Keeps true line column (p ∷ ps) s =
      then_parts line column p ps s (emit_parts-Keeps false line column ps)
  emit_parts-Keeps false line column (p ∷ ps) s =
      then_parts line column p ps _ (emit_parts-Keeps false line column ps)

  emit_template-Keeps :
      (line column : ℕ) (ps : List Part) (s : Lexer)
      → Keeps s (inner_reports sub ps) (emit_template sub line column ps s)
  unfolding emit_template push
  emit_template-Keeps line column ps s = elim (Bool-cases (has_expr ps)) [
    | inl h ↦ rw (h) (
        Keeps-nil s (inner_reports sub ps) _ (
          bind-Keeps s (inner_reports sub ps) [] _ _ (emit_parts-Keeps true line column ps _)
            (λ t. (refl, sym (append-nil t.reports)))))
    | inr h ↦
        rw (h)
          (refl, sym (append-nil s.reports) ∙ ap (λ m. s.reports ++ m) (sym (no_expr sub ps h)))
  ]

-- When a template is closed, what the lexers of its expressions have reported is reported behind
-- what was there before; but hadError is afterwards what it was at the closing backtick, whatever
-- those lexers have found.
pub end_template-had_error :
    (sub : List Byte → Option Lexer) (line column : ℕ) (t : Scanned) (s : Lexer)
    → is_at_end t.lexer ≡ false
    → end_template sub line column (inr t) ≡ some s
    → (s.had_error ≡ t.lexer.had_error)
      × (s.reports ≡ t.lexer.reports ++ inner_reports sub (t.parts ++ plain t.current ∷ []))
unfolding end_template
end_template-had_error sub line column t s h e =
    let parts = t.parts ++ plain t.current ∷ [] in
    let (same, reported) =
      subst (λ o. Keeps (advance t.lexer) (inner_reports sub parts) o) e
        (rw (h) (emit_template-Keeps sub line column parts (advance t.lexer))) in
    (
      same ∙ (advance-same t.lexer).0,
      reported ∙ ap (λ r. r ++ inner_reports sub parts) (advance-same t.lexer).1,
    )
