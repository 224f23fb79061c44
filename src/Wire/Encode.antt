-- ===== src/Wire/Encode.antt =====
-- What each `put` function of model.rs writes, as the fields of a protobuf message.
use prometheus_scrape_rs.Base.{
  ℕ, suc, ◌+◌, ◌*◌, ◌<◌, List, [], ◌∷◌, ◌++◌, Bytes, length, arith, ◌≡◌, refl, sym, ap, ◌∙◌,
  append_assoc, append-nil, if◌then◌else◌, ◌==◌, Bool-cases, inl, inr, Bool, true, false,
}
use prometheus_scrape_rs.Base.Int.{ℤ, pos, eqb_ℤ}
use prometheus_scrape_rs.Model.{is_zero, Label, Sample, HistogramCount, int, float, BucketSpan}
use prometheus_scrape_rs.Wire.{
  put_varint, put_string_field, int64_bits, le_bytes, zigzag, put_double, sample_put_fields,
  count_put, span_put_fields, put_nonzero_double,
}
use prometheus_scrape_rs.Wire.Varint.{put_varint_last, put_varint-append}
use prometheus_scrape_rs.Wire.Message.{
  Field, varint, fixed64, bytes, print_field, print, string_field, double_field, int64_field,
  sint_field, uint_field, label_message, sample_message, count_field, span_message,
}

pub print-append : (xs ys : List Field) → print (xs ++ ys) ≡ print xs ++ print ys
unfolding print
print-append [] ys = refl
print-append (x ∷ xs) ys = simp (print-append xs ys, append_assoc)

-- A key below 128 is one byte.
key : (k : ℕ) → k < 128 → put_varint k [] ≡ k ∷ []
key k h = put_varint_last k [] h

module _ (n : ℕ) where
  pub print-varint : (v : ℕ) → n * 8 < 128 → print (varint n v ∷ []) ≡ (n * 8) ∷ put_varint v []
  unfolding print print_field
  print-varint v h = rw (key (n * 8) h) (append-nil _)

  pub print-fixed64 :
      (v : ℕ) → n * 8 + 1 < 128 → print (fixed64 n v ∷ []) ≡ (n * 8 + 1) ∷ le_bytes 8 v
  unfolding print print_field
  print-fixed64 v h = rw (key (n * 8 + 1) h) (append-nil _)

  pub print-bytes :
      (b : Bytes)
      → n * 8 + 2 < 128
      → print (bytes n b ∷ []) ≡ (n * 8 + 2) ∷ (put_varint (length b) [] ++ b)
  unfolding print print_field
  print-bytes b h = rw (key (n * 8 + 2) h) (append-nil _)

-- A key byte and a number, behind what is written.
pub put_key_varint :
    (k v : ℕ) (buf : Bytes) → put_varint v (buf ++ k ∷ []) ≡ buf ++ (k ∷ put_varint v [])
put_key_varint k v buf = put_varint-append v (buf ++ k ∷ []) ∙ append_assoc buf (k ∷ []) _

pub put_string_field-print :
    (n : ℕ) (s buf : Bytes)
    → n * 8 + 2 < 128
    → put_string_field (n * 8 + 2) s buf ≡ buf ++ print (string_field n s)
unfolding put_string_field string_field
put_string_field-print n [] buf h = unfold print in sym (append-nil buf)
put_string_field-print n (c ∷ cs) buf h =
    rw (print-bytes n (c ∷ cs) h, put_key_varint) (append_assoc buf _ (c ∷ cs))

pub put_double-print :
    (n v : ℕ) (buf : Bytes)
    → n * 8 + 1 < 128
    → put_double (n * 8 + 1) v buf ≡ buf ++ print (fixed64 n v ∷ [])
unfolding put_double
put_double-print n v buf h = rw (print-fixed64 n v h)

pub put_nonzero_double-print :
    (n v : ℕ) (buf : Bytes)
    → n * 8 + 1 < 128
    → put_nonzero_double (n * 8 + 1) v buf ≡ buf ++ print (double_field n v)
unfolding put_nonzero_double double_field
put_nonzero_double-print n v buf h = elim (Bool-cases (is_zero v)) [
  | inl z ↦ rw z (unfold print in sym (append-nil buf))
  | inr z ↦ rw z (put_double-print n v buf h)
]

pub put_varint-print :
    (n v : ℕ) (buf : Bytes)
    → n * 8 < 128
    → put_varint v (buf ++ (n * 8) ∷ []) ≡ buf ++ print (varint n v ∷ [])
put_varint-print n v buf h = rw (print-varint n v h) (put_key_varint (n * 8) v buf)

-- A scalar that is left out where a test says so.
pub optional-print :
    (absent : Bool) (n v : ℕ) (buf : Bytes)
    → n * 8 < 128
    → (if absent then buf else put_varint v (buf ++ (n * 8) ∷ []))
      ≡ buf ++ print (if absent then [] else varint n v ∷ [])
optional-print true n v buf h = unfold print in sym (append-nil buf)
optional-print false n v buf h = put_varint-print n v buf h

pub count_put-print :
    (n : ℕ) (c : HistogramCount) (buf : Bytes)
    → suc n * 8 + 1 < 128
    → count_put c (n * 8) (suc n * 8 + 1) buf ≡ buf ++ print (count_field n c)
unfolding count_put count_field
count_put-print n (int c) buf h = put_varint-print n c buf (omega arith)
count_put-print n (float c) buf h = put_double-print (suc n) c buf h

-- The two fields of a label, of a sample and of a span.
pub label-print :
    (l : Label) (buf : Bytes)
    → put_string_field 0x12 l.value (put_string_field 0x0a l.name buf)
      ≡ buf ++ print (label_message l)
unfolding label_message
label-print l buf =
    put_string_field-print 2 l.value _ (omega arith)
    ∙ ap (λ (t : Bytes). t ++ print (string_field 2 l.value))
        (put_string_field-print 1 l.name buf (omega arith))
    ∙ rw print-append (append_assoc buf _ _)

pub sample_put_fields-print :
    (s : Sample) (buf : Bytes) → sample_put_fields s buf ≡ buf ++ print (sample_message s)
unfolding sample_put_fields sample_message int64_field put_nonzero_double
sample_put_fields-print s buf =
    optional-print (eqb_ℤ s.timestamp (pos 0)) 2 (int64_bits s.timestamp) _ (omega arith)
    ∙ ap (λ (t : Bytes). t ++ print (int64_field 2 s.timestamp))
        (put_nonzero_double-print 1 s.value buf (omega arith))
    ∙ rw print-append (append_assoc buf _ _)

pub span_put_fields-print :
    (s : BucketSpan) (buf : Bytes) → span_put_fields s buf ≡ buf ++ print (span_message s)
unfolding span_put_fields span_message uint_field sint_field
span_put_fields-print s buf =
    optional-print (s.length == 0) 2 s.length _ (omega arith)
    ∙ ap (λ (t : Bytes). t ++ print (uint_field 2 s.length))
        (optional-print (eqb_ℤ s.offset (pos 0)) 1 (zigzag s.offset) buf (omega arith))
    ∙ rw print-append (append_assoc buf _ _)

pub sint_field-print :
    (n : ℕ) (v : ℤ) (buf : Bytes)
    → n * 8 < 128
    → (if eqb_ℤ v (pos 0) then buf else put_varint (zigzag v) (buf ++ (n * 8) ∷ []))
      ≡ buf ++ print (sint_field n v)
unfolding sint_field
sint_field-print n v buf h = optional-print (eqb_ℤ v (pos 0)) n (zigzag v) buf h

pub int64_field-print :
    (n : ℕ) (v : ℤ) (buf : Bytes)
    → n * 8 < 128
    → (if eqb_ℤ v (pos 0) then buf else put_varint (int64_bits v) (buf ++ (n * 8) ∷ []))
      ≡ buf ++ print (int64_field n v)
unfolding int64_field
int64_field-print n v buf h = optional-print (eqb_ℤ v (pos 0)) n (int64_bits v) buf h

-- A nested message behind its key and its size.
pub nested-print :
    (n size : ℕ) (b buf : Bytes)
    → n * 8 + 2 < 128
    → size ≡ length b
    → put_varint size (buf ++ (n * 8 + 2) ∷ []) ++ b ≡ buf ++ print (bytes n b ∷ [])
nested-print n size b buf h e = rw (print-bytes n b h, e, put_key_varint) (append_assoc buf _ b)

-- One part of a message behind another.
pub print_after :
    (before : Bytes) {middle whole : Bytes} (xs ys : List Field)
    → middle ≡ before ++ print xs
    → whole ≡ middle ++ print ys
    → whole ≡ before ++ print (xs ++ ys)
print_after before {middle} {whole} xs ys p q =
    q
    ∙ ap (λ (t : Bytes). t ++ print ys) p
    ∙ append_assoc before (print xs) (print ys)
    ∙ ap (λ (t : Bytes). before ++ t) (sym (print-append xs ys))
