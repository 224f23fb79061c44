-- ===== src/Parser/Lines/Total.antt =====
-- `parse` of src/parser.rs always ends with series or with a message of its own.
use mathlib.Core.Path.{subst}
use prometheus_scrape_rs.Base.{
  suc, Bool, true, false, not, List, [], ◌∷◌, Option, none, some, Bytes, ◌==◌, length, arith, ◌≡◌,
  refl,
}
use prometheus_scrape_rs.Base.Int.{ℤ}
use prometheus_scrape_rs.Model.{Label, metric_name_label}
use prometheus_scrape_rs.Parser.{
  FloatOps, Message, bad_metric_start, invalid_value, invalid_timestamp, trailing_content, ok, err,
  span, skip_spaces, is_name_start, is_name_continue,
}
use prometheus_scrape_rs.Parser.Labels.{parse_labels}
use prometheus_scrape_rs.Parser.Labels.Total.{
  is_crash, Gives, bind-Gives, if-Gives, Anything, parse_labels-fuel,
}
use prometheus_scrape_rs.Parser.Lines.{
  ParseError, failed, strip_return, label_set_at, parse_label_set, or_message, token, check_tail,
  parse_value, parse_timestamp, parse_time, parse_sample, parse_content, parse_line, parse,
}
use prometheus_scrape_rs.Parser.Lines.Failures.{parse-IsFirstFailure}

or_message-Gives {ℓ} :
    {A : Type ℓ} (m : Message) (o : Option A) → is_crash m ≡ false → Gives Anything (or_message m o)
or_message-Gives m none h = h
or_message-Gives m (some a) h = tt

label_set_at-Gives :
    (after_name : Bytes) (labels : List Label) (s : Bytes)
    → Gives Anything (label_set_at after_name labels s)
unfolding label_set_at
label_set_at-Gives after_name labels [] = tt
label_set_at-Gives after_name labels (c ∷ s) =
    if-Gives Anything (c == b'{') (parse_labels (suc (length s)) s labels none)
      (ok (labels, after_name)) (parse_labels-fuel (suc (length s)) s labels none (omega arith)) tt

check_tail-Gives : (s : Bytes) → Gives Anything (check_tail s)
unfolding check_tail
check_tail-Gives [] = tt
check_tail-Gives (c ∷ s) = if-Gives Anything (c == b'#') (ok tt) (err trailing_content) tt refl

module _ (ops : FloatOps) (default_timestamp : ℤ) (honor : Bool) where
  parse_time-Gives : (s : Bytes) → Gives Anything (parse_time ops default_timestamp honor s)
  unfolding parse_time
  parse_time-Gives [] = tt
  parse_time-Gives (c ∷ s) = if-Gives Anything (c == b'#') (ok (default_timestamp, c ∷ s)) _ tt (
      bind-Gives Anything Anything
        (or_message invalid_timestamp (parse_timestamp ops (token (c ∷ s)).0)) _
        (or_message-Gives invalid_timestamp (parse_timestamp ops (token (c ∷ s)).0) refl)
        (λ _ _. tt))

  parse_sample-Gives : (s : Bytes) → Gives Anything (parse_sample ops default_timestamp honor s)
  unfolding parse_sample
  parse_sample-Gives [] = refl
  parse_sample-Gives (c ∷ s) =
      bind-Gives Anything Anything (or_message invalid_value (parse_value ops (token (c ∷ s)).0)) _
        (or_message-Gives invalid_value (parse_value ops (token (c ∷ s)).0) refl)
        (λ value _.
          bind-Gives Anything Anything
            (parse_time ops default_timestamp honor (skip_spaces (token (c ∷ s)).1)) _
            (parse_time-Gives (skip_spaces (token (c ∷ s)).1))
            (λ found _.
              bind-Gives Anything Anything (check_tail found.1) _ (check_tail-Gives found.1)
                (λ _ _. tt)))

  parse_content-Gives : (s : Bytes) → Gives Anything (parse_content ops default_timestamp honor s)
  unfolding parse_content parse_label_set
  parse_content-Gives [] = tt
  parse_content-Gives (c ∷ s) =
      let name = span (λ b. is_name_continue b true) s in
      if-Gives Anything (c == b'#') (ok none) _ tt (
        if-Gives Anything (not (is_name_start c true)) (err (bad_metric_start c)) _ refl (
          bind-Gives Anything Anything (parse_label_set (c ∷ name.0) name.1) _
            (label_set_at-Gives name.1
              ((record { name = metric_name_label; value = c ∷ name.0 }) ∷ []) (skip_spaces name.1))
            (λ found _.
              bind-Gives Anything Anything
                (parse_sample ops default_timestamp honor (skip_spaces found.1)) _
                (parse_sample-Gives (skip_spaces found.1)) (λ _ _. tt))))

  parse_line-Gives : (line : Bytes) → Gives Anything (parse_line ops default_timestamp honor line)
  unfolding parse_line
  parse_line-Gives line = parse_content-Gives (skip_spaces line)

  -- The message with which a body is refused is never the one for fuel that ran out or an index out
  -- of bounds: the loops end for every body, and each error is one of the source.
  pub parse-fuel :
      (body : Bytes) (e : ParseError)
      → parse ops body default_timestamp honor ≡ failed e
      → is_crash e.message ≡ false
  parse-fuel body e h =
      let first = parse-IsFirstFailure ops default_timestamp honor body e h in
      subst (Gives Anything) first.rejected (parse_line-Gives (strip_return first.line))
