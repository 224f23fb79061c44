-- ===== src/Parser/Lines/Failures.antt =====
-- How `parse` of src/parser.rs refuses a body.
use mathlib.Core.Path.{subst}
use prometheus_scrape_rs.Base.{
  ℕ, suc, ◌+◌, Bool, List, [], ◌∷◌, ◌++◌, Option, none, some, Bytes, length, All, arith, ◌≡◌, refl,
  sym, ap, ◌∙◌, inl, inr,
}
use prometheus_scrape_rs.Base.Int.{ℤ}
use prometheus_scrape_rs.Model.{TimeSeries}
use prometheus_scrape_rs.Parser.{FloatOps, ok, err}
use prometheus_scrape_rs.Parser.Scan.{Result-cases}
use prometheus_scrape_rs.Parser.Lines.{
  Parsed, series, failed, ParseError, add_line, split_lines, strip_return, parse_line, parse_lines,
  parse,
}

failed-injective : (a b : ParseError) → failed a ≡ failed b → a ≡ b
failed-injective a b e = ground arith

add_line-failed :
    (line_no : ℕ) (s : Option TimeSeries) (rest : Parsed) (e : ParseError)
    → add_line line_no (ok s) rest ≡ failed e
    → rest ≡ failed e
unfolding add_line
add_line-failed line_no none rest e h = h
add_line-failed line_no (some s) (series out) e h = ground arith
add_line-failed line_no (some s) (failed f) e h = h

module _ (ops : FloatOps) (default_timestamp : ℤ) (honor : Bool) where
  -- A line that fails, behind lines that do not.
  pub record IsFirstFailure (line_no : ℕ) (lines : List Bytes) (e : ParseError) : Type 0 where
    pub before : List Bytes
    pub line : Bytes
    pub after : List Bytes
    pub position : lines ≡ before ++ line ∷ after
    pub accepted :
        All
          (λ l.
            (s : Option TimeSeries) × (parse_line ops default_timestamp honor (strip_return l)
              ≡ ok s))
          before
    pub rejected : parse_line ops default_timestamp honor (strip_return line) ≡ err e.message
    pub number : e.line ≡ line_no + length before

  parse_lines-IsFirstFailure :
      (line_no : ℕ) (lines : List Bytes) (e : ParseError)
      → parse_lines ops default_timestamp honor line_no lines ≡ failed e
      → IsFirstFailure line_no lines e
  unfolding parse_lines
  parse_lines-IsFirstFailure line_no [] e h = ground arith
  parse_lines-IsFirstFailure line_no (line ∷ lines) e h =
      elim (Result-cases (parse_line ops default_timestamp honor (strip_return line))) [
        | inr (m, r) ↦
            let is_e : record { line = line_no; message = m } ≡ e = failed-injective _ e (
              subst
                (λ x.
                  add_line line_no x (parse_lines ops default_timestamp honor (suc line_no) lines)
                  ≡ failed e)
                r h) in
            record {
              before = [];
              line = line;
              after = lines;
              position = refl;
              accepted = tt;
              rejected = r ∙ ap (λ x. err x.message) is_e;
              number = sym (ap (λ x. x.line) is_e) ∙ omega arith;
            }
        | inl (s, r) ↦
            let later = parse_lines-IsFirstFailure (suc line_no) lines e (
              add_line-failed line_no s _ e (
                subst
                  (λ x.
                    add_line line_no x (parse_lines ops default_timestamp honor (suc line_no) lines)
                    ≡ failed e)
                  r h)) in
            record {
              before = line ∷ later.before;
              line = later.line;
              after = later.after;
              position = ap (◌∷◌ line) later.position;
              accepted = ((s, r), later.accepted);
              rejected = later.rejected;
              number = omega (arith, later.number);
            }
      ]

  -- A body that is refused has a first line that `parse_line` refuses: the lines before it are
  -- accepted, the error has the message of that line, and its number, counted from 1.
  pub parse-IsFirstFailure :
      (body : Bytes) (e : ParseError)
      → parse ops body default_timestamp honor ≡ failed e
      → IsFirstFailure 1 (split_lines body) e
  unfolding parse
  parse-IsFirstFailure body e h = parse_lines-IsFirstFailure 1 (split_lines body) e h
