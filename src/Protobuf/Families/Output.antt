-- ===== src/Protobuf/Families/Output.antt =====
-- Every series that `parse` of src/protobuf.rs gives.
use prometheus_scrape_rs.Base.{
  ℕ, zero, suc, ◌≤◌, ◌<◌, Bool, true, false, not, ◌&&◌, ◌||◌, List, [], ◌∷◌, ◌++◌, Option, none,
  some, Bytes, if◌then◌else◌, text, length, All, All-append, arith, ◌≡◌, refl, is_empty,
}
use prometheus_scrape_rs.Base.Int.{ℤ, pos, negsuc}
use prometheus_scrape_rs.Base.Result.{
  Result, ok, ◌>>=◌, refuse, Ensures, Anything, bind-Ensures, if-Ensures, refuse-Ensures, or_err,
}
use prometheus_scrape_rs.Model.{Label, TimeSeries, Histogram, Float}
use prometheus_scrape_rs.Parser.{is_valid_name}
use prometheus_scrape_rs.Protobuf.{
  Metric, MetricFamily, MetricType, counter_type, gauge_type, summary_type, untyped_type,
  histogram_type, gauge_histogram_type, Options, Summary, Quantile, Bucket, ExposedHistogram,
  FloatText, or_empty, or_zero, or_zero_int, Error, decode_failed, unnamed_family,
  invalid_metric_name,
}
use prometheus_scrape_rs.Protobuf.Native.{is_native, native_histogram, is_none_or_empty}
use prometheus_scrape_rs.Protobuf.Native.Limits.{
  IsReported, IsExported, native_histogram-IsExported,
}
use prometheus_scrape_rs.Protobuf.Series.{
  SeriesBuilder, builder_labels, builder_series, float_series, histogram_series, quantile_series,
  summary_series, bucket_series, ends_at_infinity, classic_histogram, count_of, format_float,
}
use prometheus_scrape_rs.Protobuf.Families.{
  base_labels, metric_type, convert_histogram, convert_metric, convert_metrics, convert_family,
  parse_families, parse_protobuf, or_no_summary, or_no_histogram, nested_value,
}
use prometheus_scrape_rs.Protobuf.Families.Distinct.{
  IsExposed, base_labels-IsExposed, builder_labels-IsExposed, weaken-IsExposed,
}

abbrev pub IsExposedSeries : TimeSeries → Type 0
IsExposedSeries s = IsExposed 129 s.labels

abbrev AllExposed : Result Error (List TimeSeries) → Type 0
AllExposed r = Ensures IsReported (All IsExposedSeries) r

-- Two parts in a row.
append-AllExposed :
    (r : Result Error (List TimeSeries)) (first : List TimeSeries)
    → All IsExposedSeries first
    → AllExposed r
    → AllExposed (r >>= (λ rest. ok (first ++ rest)))
append-AllExposed r first hf hr =
    bind-Ensures IsReported (All IsExposedSeries) (All IsExposedSeries) r _ hr
      (λ rest h. All-append IsExposedSeries first rest hf h)

float_series-IsExposed :
    (b : SeriesBuilder) (suffix : Bytes) (extra : Option Label) (value : Float)
    → IsExposed 128 b.labels
    → Ensures IsReported IsExposedSeries (float_series b suffix extra value)
unfolding float_series builder_series
float_series-IsExposed b suffix extra value e =
    bind-Ensures IsReported (IsExposed 129) IsExposedSeries (builder_labels b suffix extra) _
      (builder_labels-IsExposed b suffix extra e) (λ labels h. h)

histogram_series-IsExposed :
    (b : SeriesBuilder) (h : Histogram)
    → IsExposed 128 b.labels
    → IsExposedSeries (histogram_series b h)
unfolding histogram_series builder_series
histogram_series-IsExposed b h e = weaken-IsExposed b.labels e

list-AllExposed :
    (r : Result Error (List TimeSeries)) (k : List TimeSeries → Result Error (List TimeSeries))
    → AllExposed r
    → ((a : List TimeSeries) → All IsExposedSeries a → AllExposed (k a))
    → AllExposed (r >>= k)
list-AllExposed r k h hk =
    bind-Ensures IsReported (All IsExposedSeries) (All IsExposedSeries) r k h hk

float-AllExposed :
    (b : SeriesBuilder) (suffix : Bytes) (extra : Option Label) (value : Float)
    (k : TimeSeries → Result Error (List TimeSeries))
    → IsExposed 128 b.labels
    → ((a : TimeSeries) → IsExposedSeries a → AllExposed (k a))
    → AllExposed (float_series b suffix extra value >>= k)
float-AllExposed b suffix extra value k e hk =
    bind-Ensures IsReported IsExposedSeries (All IsExposedSeries)
      (float_series b suffix extra value) k (float_series-IsExposed b suffix extra value e) hk

one-AllExposed :
    (b : SeriesBuilder) (suffix : Bytes) (extra : Option Label) (value : Float)
    → IsExposed 128 b.labels
    → AllExposed (float_series b suffix extra value >>= (λ a. ok (a ∷ [])))
one-AllExposed b suffix extra value e =
    float-AllExposed b suffix extra value (λ a. ok (a ∷ [])) e (λ a h. (h, tt))

metric_type-IsReported : (raw : ℤ) → Ensures IsReported Anything (metric_type raw)
unfolding metric_type
metric_type-IsReported (pos zero) = tt
metric_type-IsReported (pos (suc zero)) = tt
metric_type-IsReported (pos (suc (suc zero))) = tt
metric_type-IsReported (pos (suc (suc (suc zero)))) = tt
metric_type-IsReported (pos (suc (suc (suc (suc zero))))) = tt
metric_type-IsReported (pos (suc (suc (suc (suc (suc zero)))))) = tt
metric_type-IsReported (pos (suc (suc (suc (suc (suc (suc n))))))) = refl
metric_type-IsReported (negsuc n) = refl

module _ (f : FloatText) where
  quantile_series-IsExposed :
      (b : SeriesBuilder) (qs : List Quantile)
      → IsExposed 128 b.labels
      → AllExposed (quantile_series f b qs)
  unfolding quantile_series
  quantile_series-IsExposed b [] e = tt
  quantile_series-IsExposed b (q ∷ qs) e =
      float-AllExposed b []
        (some (record { name = text "quantile"; value = format_float f (or_zero q.quantile) }))
        (or_zero q.value) _ e
        (λ s h.
          list-AllExposed (quantile_series f b qs) (λ rest. ok (s ∷ rest))
            (quantile_series-IsExposed b qs e) (λ rest hs. (h, hs)))

  bucket_series-IsExposed :
      (b : SeriesBuilder) (bs : List Bucket)
      → IsExposed 128 b.labels
      → AllExposed (bucket_series f b bs)
  unfolding bucket_series
  bucket_series-IsExposed b [] e = tt
  bucket_series-IsExposed b (q ∷ qs) e =
      float-AllExposed b (text "_bucket")
        (some (record { name = text "le"; value = format_float f (or_zero q.upper_bound) }))
        (count_of f q.cumulative_count_float q.cumulative_count) _ e
        (λ s h.
          list-AllExposed (bucket_series f b qs) (λ rest. ok (s ∷ rest))
            (bucket_series-IsExposed b qs e) (λ rest hs. (h, hs)))

  summary_series-IsExposed :
      (b : SeriesBuilder) (s : Summary) → IsExposed 128 b.labels → AllExposed (summary_series f b s)
  unfolding summary_series
  summary_series-IsExposed b summary e =
      float-AllExposed b (text "_count") none (f.to_f64 (or_zero summary.sample_count)) _ e
        (λ count hc.
          float-AllExposed b (text "_sum") none (or_zero summary.sample_sum) _ e (λ sum hs.
            list-AllExposed (quantile_series f b summary.quantile) (λ qs. ok (count ∷ sum ∷ qs))
              (quantile_series-IsExposed b summary.quantile e) (λ qs hq. (hc, (hs, hq)))))

  classic_histogram-IsExposed :
      (b : SeriesBuilder) (h : ExposedHistogram)
      → IsExposed 128 b.labels
      → AllExposed (classic_histogram f b h)
  unfolding classic_histogram
  classic_histogram-IsExposed b h e =
      let total = count_of f h.sample_count_float h.sample_count in
      let extra = some (record { name = text "le"; value = text "+Inf" }) in
      let bound = float_series b (text "_bucket") extra total >>= (λ s. ok (s ∷ [])) in
      float-AllExposed b (text "_count") none total _ e (λ count hc.
        float-AllExposed b (text "_sum") none (or_zero h.sample_sum) _ e (λ sum hs.
          list-AllExposed (bucket_series f b h.bucket) _ (bucket_series-IsExposed b h.bucket e)
            (λ bs hb.
              list-AllExposed (if ends_at_infinity f h.bucket then ok [] else bound)
                (λ last. ok (count ∷ sum ∷ (bs ++ last)))
                (if-Ensures IsReported (All IsExposedSeries) (ends_at_infinity f h.bucket) (ok [])
                  bound tt (one-AllExposed b (text "_bucket") extra total e))
                (λ last hl. (hc, (hs, All-append IsExposedSeries bs last hb hl))))))

  module _ (options : Options) where
    convert_histogram-IsExposed :
        (b : SeriesBuilder) (is_gauge : Bool) (h : ExposedHistogram)
        → IsExposed 128 b.labels
        → AllExposed (convert_histogram f options b is_gauge h)
    unfolding convert_histogram
    convert_histogram-IsExposed b is_gauge h e =
        list-AllExposed _ _
          (if-Ensures IsReported (All IsExposedSeries) (options.native_histograms && is_native h) _
            (ok [])
            (bind-Ensures IsReported (IsExported options.bucket_limit) (All IsExposedSeries)
              (native_histogram f.add_f64 h is_gauge options.bucket_limit) _
              (native_histogram-IsExported f.add_f64 h is_gauge options.bucket_limit)
              (λ n _. (histogram_series-IsExposed b n e, tt)))
            tt)
          (λ first hf. append-AllExposed _ first hf (
            if-Ensures IsReported (All IsExposedSeries)
              (not (options.native_histograms && is_native h)
                || (options.classic_histograms && not (is_none_or_empty h.bucket)))
              _ (ok []) (classic_histogram-IsExposed b h e) tt))

    convert_metric-IsExposed :
        (kind : MetricType) (b : SeriesBuilder) (m : Metric)
        → IsExposed 128 b.labels
        → AllExposed (convert_metric f options kind b m)
    unfolding convert_metric
    convert_metric-IsExposed counter_type b m e =
        one-AllExposed b [] none (nested_value m.counter) e
    convert_metric-IsExposed gauge_type b m e = one-AllExposed b [] none (nested_value m.gauge) e
    convert_metric-IsExposed untyped_type b m e =
        one-AllExposed b [] none (nested_value m.untyped) e
    convert_metric-IsExposed summary_type b m e =
        summary_series-IsExposed b (or_no_summary m.summary) e
    convert_metric-IsExposed histogram_type b m e =
        convert_histogram-IsExposed b false (or_no_histogram m.histogram) e
    convert_metric-IsExposed gauge_histogram_type b m e =
        convert_histogram-IsExposed b true (or_no_histogram m.histogram) e

    convert_metrics-IsExposed :
        (name : Bytes) (t : ℤ) (kind : MetricType) (ms : List Metric)
        → AllExposed (convert_metrics f options name t kind ms)
    unfolding convert_metrics
    convert_metrics-IsExposed name t kind [] = tt
    convert_metrics-IsExposed name t kind (m ∷ ms) =
        bind-Ensures IsReported (IsExposed 128) (All IsExposedSeries) (base_labels name m.label) _
          (base_labels-IsExposed name m.label)
          (λ labels e. list-AllExposed _ _ (convert_metric-IsExposed kind _ m e) (λ first hf.
            append-AllExposed (convert_metrics f options name t kind ms) first hf
              (convert_metrics-IsExposed name t kind ms)))

    convert_family-IsExposed :
        (t : ℤ) (family : MetricFamily) → AllExposed (convert_family f options t family)
    unfolding convert_family
    convert_family-IsExposed t family =
        let name = or_empty family.name in
        bind-Ensures IsReported Anything (All IsExposedSeries)
          (refuse (is_empty name) unnamed_family) _
          (refuse-Ensures IsReported (is_empty name) unnamed_family refl)
          (λ _ _.
            bind-Ensures IsReported Anything (All IsExposedSeries)
              (refuse (not (is_valid_name name true)) (invalid_metric_name name)) _
              (refuse-Ensures IsReported (not (is_valid_name name true)) (invalid_metric_name name)
                refl)
              (λ _ _.
                bind-Ensures IsReported Anything (All IsExposedSeries)
                  (metric_type (or_zero_int family.kind)) _
                  (metric_type-IsReported (or_zero_int family.kind))
                  (λ kind _. convert_metrics-IsExposed name t kind family.metric)))

    -- Each family that is decoded takes bytes away, so the length of the body is fuel enough.
    module _ (decode : Bytes → Option (MetricFamily × Bytes))
        (consumes : (body : Bytes) (family : MetricFamily) (rest : Bytes)
          → decode body ≡ some (family, rest)
          → length rest < length body) where
      parse_families-IsExposed :
          (fuel : ℕ) (t : ℤ) (body : Bytes)
          → length body ≤ fuel
          → AllExposed (parse_families f options decode fuel t body)
      unfolding parse_families
      parse_families-IsExposed fuel t [] enough = tt
      parse_families-IsExposed zero t (c ∷ body) enough = ground (arith, enough)
      parse_families-IsExposed (suc fuel) t (c ∷ body) enough =
          bind-Ensures IsReported (λ decoded. length decoded.1 < length (c ∷ body))
            (All IsExposedSeries) (or_err (decode (c ∷ body)) decode_failed) _
            (decoded (decode (c ∷ body)) refl)
            (λ decoded shorter.
              list-AllExposed (convert_family f options t decoded.0) _
                (convert_family-IsExposed t decoded.0)
                (λ first hf.
                  append-AllExposed (parse_families f options decode fuel t decoded.1) first hf
                    (parse_families-IsExposed fuel t decoded.1 (omega (arith, shorter, enough)))))
        where
          decoded :
              (r : Option (MetricFamily × Bytes))
              → decode (c ∷ body) ≡ r
              → Ensures IsReported (λ d. length d.1 < length (c ∷ body)) (or_err r decode_failed)
          decoded none same = refl
          decoded (some (family, rest)) same = consumes (c ∷ body) family rest same

      -- Where decoding a family takes bytes away, a body is refused with an error of the source, never for
      -- want of fuel, or it gives series whose label names are distinct and start with the metric's, at most
      -- 129 of them: the limit of 128 is checked before `le` or `quantile` comes on top, although
      -- the documentation of the limit says that it is for a series.
      pub parse_protobuf-IsExposed :
          (body : Bytes) (t : ℤ)
          → Ensures IsReported (All IsExposedSeries) (parse_protobuf f options decode body t)
      unfolding parse_protobuf
      parse_protobuf-IsExposed body t = parse_families-IsExposed (length body) t body (omega arith)
