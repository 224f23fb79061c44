-- ===== src/Wire/Length.antt =====
-- The sizes that model.rs computes before it writes, against the number of bytes written.
use prometheus_scrape_rs.Base.{
  ℕ, suc, ◌+◌, ◌*◌, ◌≤◌, ◌<◌, List, [], ◌∷◌, ◌++◌, Bytes, length, length-append, arith, ◌≡◌, refl,
  sym, ap, ◌∙◌, if◌then◌else◌, ◌==◌, Bool-cases, inl, inr, Bool, true, false,
}
use prometheus_scrape_rs.Base.Int.{ℤ, pos, eqb_ℤ, IsU64, IsI64}
use prometheus_scrape_rs.Model.{
  is_zero, Label, Sample, IsSample, IsCount, IsSpan, HistogramCount, int, float, BucketSpan,
}
use prometheus_scrape_rs.Wire.{
  put_varint, varint_len, string_field_len, int64_bits, zigzag, sample_wire_len, count_wire_len,
  span_wire_len, label_wire_len,
}
use prometheus_scrape_rs.Wire.Varint.{varint_len-put_varint}
use prometheus_scrape_rs.Wire.Zigzag.{zigzag-IsU64, int64_bits-IsU64, IsI32-IsI64, length-le_bytes}
use prometheus_scrape_rs.Wire.Encode.{print-append, print-varint, print-fixed64, print-bytes}
use prometheus_scrape_rs.Wire.Message.{
  Field, varint, fixed64, bytes, print, string_field, double_field, int64_field, sint_field,
  uint_field, label_message, sample_message, count_field, span_message,
}

pub length-print-append :
    (xs ys : List Field) → length (print (xs ++ ys)) ≡ length (print xs) + length (print ys)
length-print-append xs ys = ap length (print-append xs ys) ∙ length-append (print xs) (print ys)

-- The three payloads.
module _ (n : ℕ) where
  pub length-print-varint :
      (v : ℕ) → n * 8 < 128 → IsU64 v → length (print (varint n v ∷ [])) ≡ 1 + varint_len v
  length-print-varint v h u =
      omega (arith, ap length (print-varint n v h), varint_len-put_varint v u)

  pub length-print-fixed64 : (v : ℕ) → n * 8 + 1 < 128 → length (print (fixed64 n v ∷ [])) ≡ 9
  length-print-fixed64 v h = omega (arith, ap length (print-fixed64 n v h), length-le_bytes 8 v)

  pub length-print-bytes :
      (b : Bytes)
      → n * 8 + 2 < 128
      → IsU64 (length b)
      → length (print (bytes n b ∷ [])) ≡ 1 + varint_len (length b) + length b
  length-print-bytes b h u = omega (
    arith,
    ap length (print-bytes n b h),
    length-append (put_varint (length b) []) b,
    varint_len-put_varint (length b) u,
  )

-- A scalar that is left out where a test says so.
length-optional :
    (absent : Bool) (n v : ℕ)
    → n * 8 < 128
    → IsU64 v
    → (if absent then 0 else 1 + varint_len v)
      ≡ length (print (if absent then [] else varint n v ∷ []))
length-optional true n v h u = unfold print in refl
length-optional false n v h u = sym (length-print-varint n v h u)

pub length-double_field :
    (n v : ℕ) → n * 8 + 1 < 128 → (if is_zero v then 0 else 9) ≡ length (print (double_field n v))
unfolding double_field
length-double_field n v h = elim (Bool-cases (is_zero v)) [
  | inl z ↦ rw z (unfold print in refl)
  | inr z ↦ rw z (sym (length-print-fixed64 n v h))
]

pub length-int64_field :
    (n : ℕ) (v : ℤ)
    → n * 8 < 128
    → IsI64 v
    → (if eqb_ℤ v (pos 0) then 0 else 1 + varint_len (int64_bits v))
      ≡ length (print (int64_field n v))
unfolding int64_field
length-int64_field n v h r =
    length-optional (eqb_ℤ v (pos 0)) n (int64_bits v) h (int64_bits-IsU64 v r)

pub length-sint_field :
    (n : ℕ) (v : ℤ)
    → n * 8 < 128
    → IsI64 v
    → (if eqb_ℤ v (pos 0) then 0 else 1 + varint_len (zigzag v)) ≡ length (print (sint_field n v))
unfolding sint_field
length-sint_field n v h r = length-optional (eqb_ℤ v (pos 0)) n (zigzag v) h (zigzag-IsU64 v r)

pub length-uint_field :
    (n v : ℕ)
    → n * 8 < 128
    → IsU64 v
    → (if v == 0 then 0 else 1 + varint_len v) ≡ length (print (uint_field n v))
unfolding uint_field
length-uint_field n v h u = length-optional (v == 0) n v h u

string_field_len-print :
    (n : ℕ) (s : Bytes)
    → n * 8 + 2 < 128
    → IsU64 (length s)
    → string_field_len s ≡ length (print (string_field n s))
unfolding string_field_len string_field
string_field_len-print n [] h u = unfold print in refl
string_field_len-print n (c ∷ cs) h u = sym (length-print-bytes n (c ∷ cs) h u)

length-le-string_field_len : (s : Bytes) → length s ≤ string_field_len s
unfolding string_field_len
length-le-string_field_len [] = omega arith
length-le-string_field_len (c ∷ cs) = omega arith

pub label_wire_len-print :
    (l : Label) → IsU64 (label_wire_len l) → label_wire_len l ≡ length (print (label_message l))
unfolding label_wire_len label_message
label_wire_len-print l u = omega (
  arith,
  length-print-append (string_field 1 l.name) (string_field 2 l.value),
  string_field_len-print 1 l.name (omega arith) (omega (arith, length-le-string_field_len l.name)),
  string_field_len-print 2 l.value (omega arith)
      (omega (arith, length-le-string_field_len l.value)),
)

pub sample_wire_len-print :
    (s : Sample) → IsSample s → sample_wire_len s ≡ length (print (sample_message s))
unfolding sample_wire_len sample_message
sample_wire_len-print s r = omega (
  arith,
  length-print-append (double_field 1 s.value) (int64_field 2 s.timestamp),
  length-double_field 1 s.value (omega arith),
  length-int64_field 2 s.timestamp (omega arith) r.timestamp_range,
)

pub count_wire_len-print :
    (n : ℕ) (c : HistogramCount)
    → suc n * 8 + 1 < 128
    → IsCount c
    → count_wire_len c ≡ length (print (count_field n c))
unfolding count_wire_len count_field
count_wire_len-print n (int c) h r = sym (length-print-varint n c (omega arith) r)
count_wire_len-print n (float c) h r = sym (length-print-fixed64 (suc n) c h)

pub span_wire_len-print :
    (s : BucketSpan) → IsSpan s → span_wire_len s ≡ length (print (span_message s))
unfolding span_wire_len span_message
span_wire_len-print s r = omega (
  arith,
  length-print-append (sint_field 1 s.offset) (uint_field 2 s.length),
  length-sint_field 1 s.offset (omega arith) (IsI32-IsI64 s.offset r.offset_range),
  length-uint_field 2 s.length (omega arith) (omega (arith, r.length_range)),
)
