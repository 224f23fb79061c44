-- ===== src/Protobuf/Native/Limits.antt =====
-- The schema and the number of buckets of a histogram that src/protobuf.rs lets through.
use prometheus_scrape_rs.Base.{
  ℕ, zero, suc, ◌+◌, ◌≤◌, ◌<◌, ◌==◌, max, Bool, true, false, not, ◌&&◌, ◌||◌, List, [], ◌∷◌, Option,
  none, some, ltb, if◌then◌else◌, Bool-cases, arith, ◌≡◌, refl, ap, inl, inr, ◌⊎◌,
}
use prometheus_scrape_rs.Base.Int.{
  ℤ, pos, pos_part, neg_part, ◌-ℤ◌, ◌+ℤ◌, fits_i32, fits_i64, ◌≤ℤ◌, ◌<ℤ◌, leb_ℤ, ltb_ℤ, int_laws,
  -ℤ_parts,
}
use prometheus_scrape_rs.Base.Result.{
  Result, ok, err, refuse, Ensures, Anything, bind-Ensures, if-Ensures, refuse-Ensures,
}
use prometheus_scrape_rs.Model.{Histogram, Float, BucketSpan}
use prometheus_scrape_rs.Protobuf.{
  ExposedHistogram, or_zero_int, negative, positive, Error, coverage_differs, Side, out_of_fuel,
}
use prometheus_scrape_rs.Protobuf.Spans.{
  place, to_i32, target_index, Merging, merge_bucket, merge_span, merge_spans, merge_buckets,
  add_i64, absolute_from, validate_side, walk_spans, check_deltas, reduce_side, reduce_resolution,
}
use prometheus_scrape_rs.Protobuf.Native.{
  schema_max, schema_min, bucket_len, buckets, exposed_histogram, limit_buckets, cap_schema,
  native_histogram,
}

abbrev pub is_fuel : Error → Bool
is_fuel out_of_fuel = true
is_fuel e = false

-- The error is one of the source.
abbrev pub IsReported : Error → Type 0
IsReported e = is_fuel e ≡ false

-- A histogram within the limit, at a schema that is no coarser than the least and no finer than
-- that of `h`.
pub record IsLimited (limit : ℕ) (h out : Histogram) : Type 0 where
  pub within : buckets out ≤ limit
  pub least : schema_min ≤ℤ out.schema
  pub coarser : out.schema ≤ℤ h.schema

weaken :
    (limit : ℕ) (h h1 : Histogram) (r : Result Error Histogram)
    → h1.schema ≤ℤ h.schema
    → Ensures IsReported (IsLimited limit h1) r
    → Ensures IsReported (IsLimited limit h) r
weaken limit h h1 (ok out) below k = record {
  within = k.within;
  least = k.least;
  coarser = omega (arith, k.coarser, below);
}
weaken limit h h1 (err e) below k = k

-- No error for fuel.
abbrev Enough {ℓ} : {A : Type ℓ} → Result Error A → Type 0
Enough = Ensures IsReported Anything

module _ {A : Type 0} (add : A → A → A) (shift : ℕ) where
  place-Enough :
      (last : Option ℤ) (spans : List BucketSpan) (counts : List A) (target : ℤ) (count : A)
      → Enough (place add last spans counts target count)
  unfolding place to_i32
  place-Enough none spans counts target count = ground arith
  place-Enough (some previous) spans counts target count = ground arith

  merge_bucket-Enough : (m : Merging A) (counts : List A) → Enough (merge_bucket add shift m counts)
  unfolding merge_bucket
  merge_bucket-Enough m [] = refl
  merge_bucket-Enough m (count ∷ counts) =
      bind-Ensures _ Anything Anything
        (place add m.last m.out_spans m.out_counts (target_index m.index shift) count) _
        (place-Enough m.last m.out_spans m.out_counts (target_index m.index shift) count)
        (λ _ _. tt)

  merge_span-Enough : (n : ℕ) (m : Merging A) → Enough (merge_span add shift n m)
  unfolding merge_span
  merge_span-Enough zero m = tt
  merge_span-Enough (suc n) m =
      bind-Ensures _ Anything Anything (merge_bucket add shift m m.counts) (merge_span add shift n)
        (merge_bucket-Enough m m.counts) (λ m' _. merge_span-Enough n m')

  merge_spans-Enough :
      (spans : List BucketSpan) (m : Merging A) → Enough (merge_spans add shift spans m)
  unfolding merge_spans
  merge_spans-Enough [] m = tt
  merge_spans-Enough (span ∷ spans) m =
      bind-Ensures _ Anything Anything
        (merge_span add shift span.length (record m { index = m.index +ℤ span.offset }))
        (merge_spans add shift spans) (merge_span-Enough span.length _)
        (λ m' _. merge_spans-Enough spans m')

  merge_buckets-Enough :
      (spans : List BucketSpan) (counts : List A) → Enough (merge_buckets add shift spans counts)
  unfolding merge_buckets
  merge_buckets-Enough spans counts =
      bind-Ensures _ Anything Anything (merge_spans add shift spans _) _
        (merge_spans-Enough spans _) (λ _ _. tt)

module _ (add_f64 : Float → Float → Float) where
  reduce_side-Enough :
      (shift : ℕ) (spans : List BucketSpan) (deltas : List ℤ) (counts : List Float)
      → Enough
          (reduce_side add_f64 shift (record { spans = spans; deltas = deltas; counts = counts }))
  unfolding reduce_side
  reduce_side-Enough shift spans deltas [] =
      bind-Ensures _ Anything Anything
        (merge_buckets add_i64 shift spans (absolute_from (pos 0) deltas)) _
        (merge_buckets-Enough add_i64 shift spans _) (λ _ _. tt)
  reduce_side-Enough shift spans deltas (c ∷ cs) =
      bind-Ensures _ Anything Anything (merge_buckets add_f64 shift spans (c ∷ cs)) _
        (merge_buckets-Enough add_f64 shift spans (c ∷ cs)) (λ _ _. tt)

  reduce_resolution-Enough :
      (h : Histogram) (target : ℤ)
      → Ensures IsReported (λ out. out.schema ≡ target) (reduce_resolution add_f64 h target)
  unfolding reduce_resolution
  reduce_resolution-Enough h target =
      let shift = pos_part (h.schema -ℤ target) in
      bind-Ensures _ Anything (λ out. out.schema ≡ target)
        (reduce_side add_f64 shift (record {
          spans = h.negative_spans;
          deltas = h.negative_deltas;
          counts = h.negative_counts;
        }))
        _ (reduce_side-Enough shift h.negative_spans h.negative_deltas h.negative_counts)
        (λ n _.
          bind-Ensures _ Anything (λ out. out.schema ≡ target)
            (reduce_side add_f64 shift (record {
              spans = h.positive_spans;
              deltas = h.positive_deltas;
              counts = h.positive_counts;
            }))
            _ (reduce_side-Enough shift h.positive_spans h.positive_deltas h.positive_counts)
            (λ p _. refl))

  limit_buckets-Enough :
      (fuel limit : ℕ) (h : Histogram)
      → schema_min ≤ℤ h.schema
      → pos_part h.schema + 4 < fuel + neg_part h.schema
      → Ensures IsReported (IsLimited limit h) (limit_buckets add_f64 fuel limit h)
  unfolding limit_buckets
  limit_buckets-Enough zero limit h low enough = absurd (omega arith)
  limit_buckets-Enough (suc fuel) limit h low enough = elim (Bool-cases (ltb limit (buckets h))) [
    | inr fits ↦ rw fits (record { within = ground arith; least = low; coarser = omega arith })
    | inl above ↦ elim (Bool-cases (leb_ℤ h.schema schema_min)) [
      | inl coarsest ↦ rw (above, coarsest) refl
      | inr finer ↦
          rw (above, finer)
            (bind-Ensures _ (λ out. out.schema ≡ h.schema -ℤ pos 1) (IsLimited limit h)
              (reduce_resolution add_f64 h (h.schema -ℤ pos 1)) (limit_buckets add_f64 fuel limit)
              (reduce_resolution-Enough h (h.schema -ℤ pos 1))
              (λ h1 same.
                let lower : h1.schema <ℤ h.schema =
                  omega (int_laws, ap pos_part same, ap neg_part same) in
                weaken limit h h1 (limit_buckets add_f64 fuel limit h1) (omega arith) (
                  limit_buckets-Enough fuel limit h1
                    (ground
                      (arith, -ℤ_parts h.schema (pos 1), finer, ap pos_part same, ap neg_part same))
                    (omega (int_laws, ap pos_part same, ap neg_part same)))))
    ]
  ]

walk_spans-Enough :
    (side : Side) (later : Bool) (next : ℤ) (covered : ℕ) (spans : List BucketSpan)
    → Enough (walk_spans side later next covered spans)
unfolding walk_spans
walk_spans-Enough side later next covered [] = tt
walk_spans-Enough side later next covered (s ∷ ss) =
    if-Ensures _ Anything (later && ltb_ℤ s.offset (pos 0)) _ _ refl (
      if-Ensures _ Anything
        (not (fits_i32 (next +ℤ s.offset))
          || not (fits_i32 (next +ℤ s.offset +ℤ pos (max s.length 1) -ℤ pos 1)))
        _ _ refl
        (walk_spans-Enough side true (next +ℤ s.offset +ℤ pos s.length) (covered + s.length) ss))

check_deltas-Enough :
    (side : Side) (count : ℤ) (deltas : List ℤ) → Enough (check_deltas side count deltas)
unfolding check_deltas
check_deltas-Enough side count [] = tt
check_deltas-Enough side count (d ∷ ds) =
    if-Ensures _ Anything (not (fits_i64 (count +ℤ d))) _ _ refl (
      if-Ensures _ Anything (ltb_ℤ (count +ℤ d) (pos 0)) _ _ refl
        (check_deltas-Enough side (count +ℤ d) ds))

validate_side-Enough :
    (side : Side) (spans : List BucketSpan) (n : ℕ) (deltas : List ℤ)
    → Enough (validate_side side spans n deltas)
unfolding validate_side
validate_side-Enough side spans n deltas =
    bind-Ensures _ Anything Anything (walk_spans side false (pos 0) 0 spans) _
      (walk_spans-Enough side false (pos 0) 0 spans)
      (λ covered _.
        bind-Ensures _ Anything Anything
          (refuse (not (covered == n)) (coverage_differs side covered n)) _
          (refuse-Ensures _ (not (covered == n)) _ refl)
          (λ _ _. check_deltas-Enough side (pos 0) deltas))

-- What the agent exports: schemas -4 to 8, and no more buckets than a limit that is set.
pub record IsExported (limit : ℕ) (out : Histogram) : Type 0 where
  pub within : (limit ≡ 0) ⊎ (buckets out ≤ limit)
  pub least : schema_min ≤ℤ out.schema
  pub most : out.schema ≤ℤ schema_max

module _ (add_f64 : Float → Float → Float) where
  cap_schema-Enough :
      (h : Histogram)
      → schema_min ≤ℤ h.schema
      → Ensures IsReported
          (λ out. (schema_min ≤ℤ out.schema) × (out.schema ≤ℤ schema_max))
          (cap_schema add_f64 h)
  unfolding cap_schema
  cap_schema-Enough h low = elim (Bool-cases (ltb_ℤ schema_max h.schema)) [
    | inr fits ↦ rw fits (low, ground arith)
    | inl above ↦ rw above (
        capped (reduce_resolution add_f64 h schema_max)
          (reduce_resolution-Enough add_f64 h schema_max))
  ]
    where
      capped :
          (r : Result Error Histogram)
          → Ensures IsReported (λ out. out.schema ≡ schema_max) r
          → Ensures IsReported (λ out. (schema_min ≤ℤ out.schema) × (out.schema ≤ℤ schema_max)) r
      capped (ok out) same = (
        omega (arith, ap pos_part same, ap neg_part same),
        omega (arith, ap pos_part same, ap neg_part same),
      )
      capped (err e) h = h

  limited :
      (limit : ℕ) (h : Histogram)
      → schema_min ≤ℤ h.schema
      → h.schema ≤ℤ schema_max
      → Ensures IsReported
          (IsExported limit)
          (if ltb 0 limit then limit_buckets add_f64 14 limit h else ok h)
  limited limit h low high = elim (Bool-cases (ltb 0 limit)) [
    | inr off ↦ rw off (record { within = inl (ground arith); least = low; most = high })
    | inl on ↦ rw on (
        exported (limit_buckets add_f64 14 limit h)
          (limit_buckets-Enough add_f64 14 limit h low (omega arith)))
  ]
    where
      exported :
          (r : Result Error Histogram)
          → Ensures IsReported (IsLimited limit h) r
          → Ensures IsReported (IsExported limit) r
      exported (ok out) k = record {
        within = inr k.within;
        least = k.least;
        most = omega (arith, k.coarser, high);
      }
      exported (err e) k = k

  -- The conversion of a native histogram ends with a message of the source or with a histogram. That
  -- one has a schema from -4 to 8, and no more buckets than the limit, if there is one: the rounds of
  -- the reduction suffice.
  pub native_histogram-IsExported :
      (exposed : ExposedHistogram) (is_gauge : Bool) (limit : ℕ)
      → Ensures IsReported (IsExported limit) (native_histogram add_f64 exposed is_gauge limit)
  unfolding native_histogram
  native_histogram-IsExported exposed is_gauge limit =
      elim (Bool-cases (ltb_ℤ (or_zero_int exposed.schema) schema_min)) [
        | inl below ↦ rw below refl
        | inr fine ↦
            let h = exposed_histogram exposed is_gauge in
            let schema : h.schema ≡ or_zero_int exposed.schema = unfold exposed_histogram in refl in
            let low : schema_min ≤ℤ h.schema =
              ground (arith, ap pos_part schema, ap neg_part schema) in
            rw fine (
              bind-Ensures _ Anything (IsExported limit)
                (validate_side negative h.negative_spans (bucket_len h negative) h.negative_deltas)
                _
                (validate_side-Enough negative h.negative_spans (bucket_len h negative)
                  h.negative_deltas)
                (λ _ _.
                  bind-Ensures _ Anything (IsExported limit)
                    (validate_side positive h.positive_spans (bucket_len h positive)
                      h.positive_deltas)
                    _
                    (validate_side-Enough positive h.positive_spans (bucket_len h positive)
                      h.positive_deltas)
                    (λ _ _.
                      bind-Ensures _
                        (λ out. (schema_min ≤ℤ out.schema) × (out.schema ≤ℤ schema_max))
                        (IsExported limit) (cap_schema add_f64 h) _ (cap_schema-Enough h low)
                        (λ capped (least, most). limited limit capped least most))))
      ]
