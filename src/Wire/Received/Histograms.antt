-- ===== src/Wire/Received/Histograms.antt =====
-- The receiver of the histogram message of src/model.rs on a message of the printer.
use prometheus_scrape_rs.Base.{
  List, [], ◌∷◌, ◌++◌, All, some, ◌≡◌, refl, sym, ap, ◌∙◌, append_assoc, append-nil, Bool-cases,
  Option-cases, inl, inr,
}
use prometheus_scrape_rs.Base.Int.{ℤ, pos, IsI64, IsU64, eqb_ℤ}
use prometheus_scrape_rs.Model.{
  Float, is_zero, BucketSpan, IsSpan, Histogram, HistogramCount, IsHistogram, int, float, ResetHint,
  unknown, reset, no_reset, gauge,
}
use prometheus_scrape_rs.Wire.{hint_number}
use prometheus_scrape_rs.Wire.Zigzag.{
  from_zigzag-zigzag, from_int64_bits-int64_bits, IsI32-IsI64, eqb_ℤ-eq,
}
use prometheus_scrape_rs.Wire.Message.{
  Field, varint, fixed64, bytes, double_field, int64_field, sint_field, uint_field, count_field,
  span_fields, delta_field, double_list_field, histogram_message,
}
use prometheus_scrape_rs.Wire.Read.{◌>>=◌}
use prometheus_scrape_rs.Wire.Packed.{
  read_span-print, read_packed_deltas-bytes, read_packed_doubles-bytes,
}
use prometheus_scrape_rs.Wire.Received.{
  WireHistogram, on_histogram, take_number, take_double, take_bytes, add_deltas, add_counts,
  read_from, nothing_read, read_histogram, arrived_double, arrived_histogram,
}

read_from_split :
    (xs ys : List Field) (w : WireHistogram)
    → read_from w (xs ++ ys) ≡ (read_from w xs >>= (λ v. read_from v ys))
unfolding read_from
read_from_split [] ys w = refl
read_from_split (varint n v ∷ xs) ys w = read_from_split xs ys (take_number n v w)
read_from_split (fixed64 n v ∷ xs) ys w = read_from_split xs ys (take_double n v w)
read_from_split (bytes n b ∷ xs) ys w = elim (Option-cases (take_bytes n b w)) [
  | inl e ↦ rw e
  | inr (v, e) ↦ rw e (read_from_split xs ys v)
]

-- The fields take what was read so far to what was read then.
record IsRead (w : WireHistogram) (fs : List Field) (next : WireHistogram) : Type 0 where
  run : read_from w fs ≡ some next

both-IsRead :
    (xs ys : List Field) (w next last : WireHistogram)
    → IsRead w xs next
    → IsRead next ys last
    → IsRead w (xs ++ ys) last
both-IsRead xs ys w next last p q = record { run = read_from_split xs ys w ∙ rw p.run q.run }

module _ (w : WireHistogram) where
  count-IsRead :
      (c : HistogramCount)
      → IsRead w (count_field 1 c) (on_histogram (λ h. record h { count = c }) w)
  unfolding read_from count_field
  count-IsRead (int n) = record { run = refl }
  count-IsRead (float v) = record { run = refl }

  zero_count-IsRead :
      (c : HistogramCount)
      → IsRead w (count_field 6 c) (on_histogram (λ h. record h { zero_count = c }) w)
  unfolding read_from count_field
  zero_count-IsRead (int n) = record { run = refl }
  zero_count-IsRead (float v) = record { run = refl }

  sum-IsRead :
      (v : Float)
      → w.histogram.sum ≡ 0
      → IsRead w (double_field 3 v) (on_histogram (λ h. record h { sum = arrived_double v }) w)
  unfolding read_from double_field
  sum-IsRead v unset = record {
    run = elim (Bool-cases (is_zero v)) [
      | inl z ↦ rw z (ap (λ s. some (on_histogram (λ h. record h { sum = s }) w)) unset)
      | inr z ↦ rw z
    ];
  }

  zero_threshold-IsRead :
      (v : Float)
      → w.histogram.zero_threshold ≡ 0
      → IsRead w
          (double_field 5 v)
          (on_histogram (λ h. record h { zero_threshold = arrived_double v }) w)
  unfolding read_from double_field
  zero_threshold-IsRead v unset = record {
    run = elim (Bool-cases (is_zero v)) [
      | inl z ↦ rw z (ap (λ s. some (on_histogram (λ h. record h { zero_threshold = s }) w)) unset)
      | inr z ↦ rw z
    ];
  }

  schema-IsRead :
      (v : ℤ)
      → IsI64 v
      → w.histogram.schema ≡ pos 0
      → IsRead w (sint_field 4 v) (on_histogram (λ h. record h { schema = v }) w)
  unfolding read_from sint_field
  schema-IsRead v r unset = record {
    run = elim (Bool-cases (eqb_ℤ v (pos 0))) [
      | inl z ↦ rw z (
          ap (λ s. some (on_histogram (λ h. record h { schema = s }) w))
            (unset ∙ sym (eqb_ℤ-eq v (pos 0) z)))
      | inr z ↦ rw (z, from_zigzag-zigzag v r)
    ];
  }

  reset_hint-IsRead :
      (hint : ResetHint)
      → w.histogram.reset_hint ≡ unknown
      → IsRead w
          (uint_field 14 (hint_number hint))
          (on_histogram (λ h. record h { reset_hint = hint }) w)
  unfolding read_from uint_field hint_number
  reset_hint-IsRead unknown unset = record {
    run = ap (λ s. some (on_histogram (λ h. record h { reset_hint = s }) w)) unset;
  }
  reset_hint-IsRead reset unset = record { run = refl }
  reset_hint-IsRead no_reset unset = record { run = refl }
  reset_hint-IsRead gauge unset = record { run = refl }

  timestamp-IsRead :
      (t : ℤ)
      → IsI64 t
      → w.timestamp ≡ pos 0
      → IsRead w (int64_field 15 t) (record w { timestamp = t })
  unfolding read_from int64_field
  timestamp-IsRead t r unset = record {
    run = elim (Bool-cases (eqb_ℤ t (pos 0))) [
      | inl z ↦
          rw z (ap (λ s. some (record w { timestamp = s })) (unset ∙ sym (eqb_ℤ-eq t (pos 0) z)))
      | inr z ↦ rw (z, from_int64_bits-int64_bits t r)
    ];
  }

  deltas-IsRead :
      (ds : List ℤ)
      → All IsI64 ds
      → (IsRead w (delta_field 9 ds) (add_deltas 9 ds w))
        × (IsRead w (delta_field 12 ds) (add_deltas 12 ds w))
  unfolding read_from delta_field
  deltas-IsRead [] r = (record { run = rw append-nil }, record { run = rw append-nil })
  deltas-IsRead (d ∷ ds) r = (
    record { run = rw (read_packed_deltas-bytes (d ∷ ds) r) },
    record { run = rw (read_packed_deltas-bytes (d ∷ ds) r) },
  )

  counts-IsRead :
      (vs : List Float)
      → All IsU64 vs
      → (IsRead w (double_list_field 10 vs) (add_counts 10 vs w))
        × (IsRead w (double_list_field 13 vs) (add_counts 13 vs w))
  unfolding read_from double_list_field
  counts-IsRead [] r = (record { run = rw append-nil }, record { run = rw append-nil })
  counts-IsRead (v ∷ vs) r = (
    record { run = rw (read_packed_doubles-bytes (v ∷ vs) r) },
    record { run = rw (read_packed_doubles-bytes (v ∷ vs) r) },
  )

negative_spans-IsRead :
    (spans : List BucketSpan) (w : WireHistogram)
    → All IsSpan spans
    → IsRead w
        (span_fields 8 spans)
        (on_histogram (λ h. record h { negative_spans = h.negative_spans ++ spans }) w)
unfolding read_from span_fields
negative_spans-IsRead [] w r = record { run = rw append-nil }
negative_spans-IsRead (s ∷ spans) w (r, rs) = record {
  run = rw (read_span-print s r) (
      (negative_spans-IsRead spans _ rs).run
      ∙ ap (λ l. some (on_histogram (λ h. record h { negative_spans = l }) w))
          (append_assoc w.histogram.negative_spans (s ∷ []) spans));
}

positive_spans-IsRead :
    (spans : List BucketSpan) (w : WireHistogram)
    → All IsSpan spans
    → IsRead w
        (span_fields 11 spans)
        (on_histogram (λ h. record h { positive_spans = h.positive_spans ++ spans }) w)
unfolding read_from span_fields
positive_spans-IsRead [] w r = record { run = rw append-nil }
positive_spans-IsRead (s ∷ spans) w (r, rs) = record {
  run = rw (read_span-print s r) (
      (positive_spans-IsRead spans _ rs).run
      ∙ ap (λ l. some (on_histogram (λ h. record h { positive_spans = l }) w))
          (append_assoc w.histogram.positive_spans (s ∷ []) spans));
}

histogram_message-IsRead :
    (h : Histogram) (timestamp : ℤ)
    → IsHistogram h
    → IsI64 timestamp
    → IsRead nothing_read
        (histogram_message h timestamp)
        (record { histogram = arrived_histogram h; timestamp = timestamp })
unfolding histogram_message
histogram_message-IsRead h timestamp r t = both-IsRead _ _ _ _ _ (count-IsRead _ h.count) (
    both-IsRead _ _ _ _ _ (sum-IsRead _ h.sum refl) (
      both-IsRead _ _ _ _ _ (schema-IsRead _ h.schema (IsI32-IsI64 h.schema r.schema_range) refl) (
        both-IsRead _ _ _ _ _ (zero_threshold-IsRead _ h.zero_threshold refl) (
          both-IsRead _ _ _ _ _ (zero_count-IsRead _ h.zero_count) (
            both-IsRead _ _ _ _ _ (negative_spans-IsRead h.negative_spans _ r.negative_span_range) (
              both-IsRead _ _ _ _ _ (deltas-IsRead _ h.negative_deltas r.negative_delta_range).0 (
                both-IsRead _ _ _ _ _ (counts-IsRead _ h.negative_counts r.negative_count_range).0 (
                  both-IsRead _ _ _ _ _
                    (positive_spans-IsRead h.positive_spans _ r.positive_span_range)
                    (both-IsRead _ _ _ _ _
                      (deltas-IsRead _ h.positive_deltas r.positive_delta_range).1
                      (both-IsRead _ _ _ _ _
                        (counts-IsRead _ h.positive_counts r.positive_count_range).1
                        (both-IsRead _ _ _ _ _ (reset_hint-IsRead _ h.reset_hint refl)
                          (timestamp-IsRead _ timestamp t refl))))))))))))

-- The fields of a histogram message give the histogram and its timestamp.
pub read_histogram-message :
    (h : Histogram) (timestamp : ℤ)
    → IsHistogram h
    → IsI64 timestamp
    → read_histogram (histogram_message h timestamp)
      ≡ some (record { histogram = arrived_histogram h; timestamp = timestamp })
unfolding read_histogram
read_histogram-message h timestamp r t = (histogram_message-IsRead h timestamp r t).run
