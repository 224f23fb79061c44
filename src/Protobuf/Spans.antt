-- ===== src/Protobuf/Spans.antt =====
-- `validate_side`, `merge_buckets` and `reduce_resolution` of src/protobuf.rs.
pub mod Layout
pub mod Filled
pub mod Merge
pub mod Total
use prometheus_scrape_rs.Base.{
  ℕ, zero, suc, ◌+◌, ◌-◌, ◌*◌, ◌/◌, ◌%◌, ◌^◌, max, Bool, true, false, not, ◌&&◌, ◌||◌, List, [],
  ◌∷◌, ◌++◌, Option, none, some, ltb, leb, ◌==◌, if◌then◌else◌, length, is_empty,
}
use prometheus_scrape_rs.Base.Int.{
  ℤ, pos, negsuc, pos_part, ◌+ℤ◌, ◌-ℤ◌, leb_ℤ, ltb_ℤ, eqb_ℤ, fits_i32, fits_i64,
}
use prometheus_scrape_rs.Base.Result.{Result, ok, err, ◌>>=◌, ◌>>◌, refuse}
use prometheus_scrape_rs.Model.{BucketSpan, Histogram, Float}
use prometheus_scrape_rs.Protobuf.{
  Side, negative, positive, Error, negative_offset, index_out_of_range, coverage_differs,
  count_overflows, count_negative, spans_cover_more,
}

-- The loop over the spans: the number of buckets covered, or the first fault. `next` is the index
-- right after the previous span, and `later` says whether there is one.
unfoldable pub walk_spans : Side → Bool → ℤ → ℕ → List BucketSpan → Result Error ℕ
walk_spans side later next covered [] = ok covered
walk_spans side later next covered (span ∷ spans) =
    let first = next +ℤ span.offset in
    let last = first +ℤ pos (max span.length 1) -ℤ pos 1 in
    let rest = walk_spans side true (first +ℤ pos span.length) (covered + span.length) spans in
    if later && ltb_ℤ span.offset (pos 0)
    then err (negative_offset side span.offset)
    else if not (fits_i32 first) || not (fits_i32 last)
    then err (index_out_of_range last)
    else rest

-- The loop over the deltas.
unfoldable pub check_deltas : Side → ℤ → List ℤ → Result Error (Unit {0})
check_deltas side count [] = ok tt
check_deltas side count (delta ∷ deltas) =
    let sum = count +ℤ delta in
    let rest = check_deltas side sum deltas in
    if not (fits_i64 sum)
    then err (count_overflows side)
    else if ltb_ℤ sum (pos 0)
    then err (count_negative side sum)
    else rest

unfoldable pub validate_side : Side → List BucketSpan → ℕ → List ℤ → Result Error (Unit {0})
unfolding walk_spans check_deltas
validate_side side spans buckets deltas = do
  covered ← walk_spans side false (pos 0) 0 spans
  refuse (not (covered == buckets)) (coverage_differs side covered buckets)
  check_deltas side (pos 0) deltas

-- `>>` on an `i64`, whose amount is taken modulo 64 in a build without overflow checks.
unfoldable pub shift_right : ℤ → ℕ → ℤ
shift_right (pos n) shift = pos (n / 2 ^ (shift % 64))
shift_right (negsuc n) shift = negsuc (n / 2 ^ (shift % 64))

-- `((index - 1) >> shift) + 1`
unfoldable pub target_index : ℤ → ℕ → ℤ
unfolding shift_right
target_index index shift = shift_right (index -ℤ pos 1) shift +ℤ pos 1

unfoldable pub to_i32 : ℤ → Result Error ℤ
to_i32 value = if fits_i32 value then ok value else err (index_out_of_range value)

-- `last_mut()` of the merged counts and of the merged spans.
unfoldable pub add_to_last {ℓ} : {A : Type ℓ} → (A → A → A) → A → List A → List A
add_to_last add count [] = []
add_to_last add count (x ∷ []) = add x count ∷ []
add_to_last add count (x ∷ y ∷ ys) = x ∷ add_to_last add count (y ∷ ys)

unfoldable pub lengthen_last : List BucketSpan → List BucketSpan
lengthen_last [] = []
lengthen_last (x ∷ []) = record { offset = x.offset; length = x.length + 1 } ∷ []
lengthen_last (x ∷ y ∷ ys) = x ∷ lengthen_last (y ∷ ys)

-- The variables of the loops.
pub record Merging (A : Type 0) : Type 0 where
  pub out_spans : List BucketSpan
  pub out_counts : List A
  pub counts : List A
  pub index : ℤ
  pub last : Option ℤ

module _ {A : Type 0} (add : A → A → A) where
  -- Where a count goes, by the index filled last: `match last { .. }`.
  unfoldable pub place :
      Option ℤ → List BucketSpan → List A → ℤ → A → Result Error (List BucketSpan × List A)
  unfolding to_i32
  place (some previous) spans counts target count =
      if eqb_ℤ previous target
      then ok (spans, add_to_last add count counts)
      else if eqb_ℤ (previous +ℤ pos 1) target
      then ok (lengthen_last spans, counts ++ count ∷ [])
      else do
        offset ← to_i32 (target -ℤ previous -ℤ pos 1)
        ok (spans ++ (record { offset = offset; length = 1 }) ∷ [], counts ++ count ∷ [])
  place none spans counts target count = do
    offset ← to_i32 target
    ok (spans ++ (record { offset = offset; length = 1 }) ∷ [], counts ++ count ∷ [])

module _ {A : Type 0} (add : A → A → A) (shift : ℕ) where
  -- One bucket of a span.
  unfoldable pub merge_bucket : Merging A → List A → Result Error (Merging A)
  unfolding place target_index
  merge_bucket m [] = err spans_cover_more
  merge_bucket m (count ∷ counts) = do
    let target = target_index m.index shift
    (out_spans, out_counts) ← place add m.last m.out_spans m.out_counts target count
    ok (record {
      out_spans = out_spans;
      out_counts = out_counts;
      counts = counts;
      index = m.index +ℤ pos 1;
      last = some target;
    })

  unfoldable pub merge_span : ℕ → Merging A → Result Error (Merging A)
  unfolding merge_bucket
  merge_span zero m = ok m
  merge_span (suc n) m = do m' ← merge_bucket m m.counts; merge_span n m'

  unfoldable pub merge_spans : List BucketSpan → Merging A → Result Error (Merging A)
  unfolding merge_span
  merge_spans [] m = ok m
  merge_spans (span ∷ spans) m = do
    m' ← merge_span span.length (record m { index = m.index +ℤ span.offset })
    merge_spans spans m'

  unfoldable pub merge_buckets : List BucketSpan → List A → Result Error (List BucketSpan × List A)
  unfolding merge_spans
  merge_buckets spans counts = do
    m ←
        merge_spans spans
          (record { out_spans = []; out_counts = []; counts = counts; index = pos 0; last = none })
    ok (m.out_spans, m.out_counts)

-- `+` and `-` on `i64` values, in a build without overflow checks.
unfoldable pub wrap_i64 : ℤ → ℤ
wrap_i64 v =
    if leb_ℤ (pos (2 ^ 63)) v
    then v -ℤ pos (2 ^ 64)
    else if ltb_ℤ v (negsuc (2 ^ 63 - 1))
    then v +ℤ pos (2 ^ 64)
    else v

abbrev pub add_i64 : ℤ → ℤ → ℤ
add_i64 a b = wrap_i64 (a +ℤ b)

-- The running sums of the deltas, and the deltas of counts.
unfoldable pub absolute_from : ℤ → List ℤ → List ℤ
absolute_from count [] = []
absolute_from count (delta ∷ deltas) =
    add_i64 count delta ∷ absolute_from (add_i64 count delta) deltas

unfoldable pub deltas_from : ℤ → List ℤ → List ℤ
deltas_from previous [] = []
deltas_from previous (count ∷ counts) = wrap_i64 (count -ℤ previous) ∷ deltas_from count counts

-- One side of a histogram.
pub record Buckets : Type 0 where
  pub spans : List BucketSpan
  pub deltas : List ℤ
  pub counts : List Float

unfoldable pub reduce_side : (Float → Float → Float) → ℕ → Buckets → Result Error Buckets
unfolding merge_buckets absolute_from deltas_from
reduce_side add_f64 shift b = elim b.counts [
  | [] ↦ do
    (spans, merged) ← merge_buckets add_i64 shift b.spans (absolute_from (pos 0) b.deltas)
    ok (record { spans = spans; deltas = deltas_from (pos 0) merged; counts = [] })
  | c ∷ cs ↦ do
    (spans, merged) ← merge_buckets add_f64 shift b.spans (c ∷ cs)
    ok (record { spans = spans; deltas = b.deltas; counts = merged })
]

unfoldable pub reduce_resolution : (Float → Float → Float) → Histogram → ℤ → Result Error Histogram
unfolding reduce_side
reduce_resolution add_f64 h target = do
  let shift = pos_part (h.schema -ℤ target)
  n ←
      reduce_side add_f64 shift (record {
        spans = h.negative_spans;
        deltas = h.negative_deltas;
        counts = h.negative_counts;
      })
  p ←
      reduce_side add_f64 shift (record {
        spans = h.positive_spans;
        deltas = h.positive_deltas;
        counts = h.positive_counts;
      })
  ok (record h {
    schema = target;
    negative_spans = n.spans;
    negative_deltas = n.deltas;
    negative_counts = n.counts;
    positive_spans = p.spans;
    positive_deltas = p.deltas;
    positive_counts = p.counts;
  })
