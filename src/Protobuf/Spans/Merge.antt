-- ===== src/Protobuf/Spans/Merge.antt =====
-- `merge_buckets` of src/protobuf.rs against the merging of its buckets one by one.
use mathlib.Core.Path.{subst}
use prometheus_scrape_rs.Base.{
  ℕ, zero, suc, List, [], ◌∷◌, ◌++◌, Option, none, some, drop, arith, ◌≡◌, refl, sym, ap, ◌∙◌,
}
use prometheus_scrape_rs.Base.Int.{ℤ, pos, ◌+ℤ◌, int_laws, eq_of_parts}
use prometheus_scrape_rs.Base.Result.{Result, ok, ◌>>=◌, bind-eq-ok, ok-injective}
use prometheus_scrape_rs.Model.{BucketSpan}
use prometheus_scrape_rs.Protobuf.{Error}
use prometheus_scrape_rs.Protobuf.Spans.{
  target_index, Merging, place, merge_bucket, merge_span, merge_spans, merge_buckets,
}
use prometheus_scrape_rs.Protobuf.Spans.Layout.{run, indices, zip, zip-append, length-run, +ℤ_zero}
use prometheus_scrape_rs.Protobuf.Spans.Filled.{
  buckets_of, push_bucket, push_all, IsFilled-buckets, IsMerged, place-IsFilled,
}

module _ {A : Type 0} (add : A → A → A) (shift : ℕ) where
  -- What the loop has reached: `out` from the buckets so far.
  abbrev HasMerged : Merging A → List (ℤ × A) → Type 0
  HasMerged m out = IsMerged add shift m.last m.out_spans m.out_counts out

  merge_bucket-HasMerged :
      (m : Merging A) (count : A) (counts : List A) (out : List (ℤ × A)) (m' : Merging A)
      → HasMerged m out
      → merge_bucket add shift m (count ∷ counts) ≡ ok m'
      → HasMerged m' (push_bucket add shift out (target_index m.index shift, count))
        × (m'.counts ≡ counts)
        × (m'.index ≡ m.index +ℤ pos 1)
  unfolding merge_bucket IsMerged
  merge_bucket-HasMerged m count counts out m' h e =
      let target = target_index m.index shift in
      let finish : List BucketSpan × List A → Result Error (Merging A) = λ found. ok (record {
        out_spans = found.0;
        out_counts = found.1;
        counts = counts;
        index = m.index +ℤ pos 1;
        last = some target;
      }) in
      let (found, placed, e1) =
        bind-eq-ok (place add m.last m.out_spans m.out_counts target count) finish e in
      subst
        (λ x.
          HasMerged x (push_bucket add shift out (target, count))
          × (x.counts ≡ counts)
          × (x.index ≡ m.index +ℤ pos 1))
        (ok-injective _ m' e1)
        (
          place-IsFilled add shift m.last m.out_spans m.out_counts target count out found h placed,
          refl,
          refl,
        )

  push_all-append :
      (xs ys out : List (ℤ × A))
      → push_all add shift out (xs ++ ys) ≡ push_all add shift (push_all add shift out xs) ys
  unfolding push_all
  push_all-append [] ys out = refl
  push_all-append (x ∷ xs) ys out =
      push_all-append xs ys (push_bucket add shift out (target_index x.0 shift, x.1))

  zip_runs :
      (i : ℤ) (n : ℕ) (rest : List ℤ) (counts : List A) (out : List (ℤ × A))
      → push_all add shift out (zip (run i n ++ rest) counts)
        ≡ push_all add shift
            (push_all add shift out (zip (run i n) counts))
            (zip rest (drop n counts))
  zip_runs i n rest counts out =
      ap (push_all add shift out) (
        zip-append (run i n) rest counts
        ∙ ap (λ t. zip (run i n) counts ++ zip rest (drop t counts)) (length-run i n))
      ∙ push_all-append (zip (run i n) counts) (zip rest (drop n counts)) out

  IsMerged-buckets :
      (last : Option ℤ) (spans : List BucketSpan) (counts : List A) (out : List (ℤ × A))
      → IsMerged add shift last spans counts out
      → buckets_of spans counts ≡ out
  unfolding IsMerged indices zip
  IsMerged-buckets none spans counts out (no_spans, no_counts, no_out) = rw (no_spans, no_out)
  IsMerged-buckets (some previous) spans counts out f =
      IsFilled-buckets add shift spans counts previous out f

  start-HasMerged : (counts : List A) → IsMerged add shift none [] [] []
  unfolding IsMerged
  start-HasMerged counts = (refl, refl, refl)

  merge_span-HasMerged :
      (n : ℕ) (m : Merging A) (counts : List A) (out : List (ℤ × A)) (m' : Merging A)
      → m.counts ≡ counts
      → HasMerged m out
      → merge_span add shift n m ≡ ok m'
      → HasMerged m' (push_all add shift out (zip (run m.index n) counts))
        × (m'.counts ≡ drop n counts)
        × (m'.index ≡ m.index +ℤ pos n)
  unfolding merge_span merge_bucket push_all run zip
  merge_span-HasMerged zero m counts out m' c h e =
      subst (λ x. HasMerged x out × (x.counts ≡ counts) × (x.index ≡ m.index +ℤ pos 0))
        (ok-injective m m' e) (h, c, sym (+ℤ_zero m.index))
  merge_span-HasMerged (suc n) m [] out m' c h e = absurd (
      ground
        (arith, subst (λ t. (merge_bucket add shift m t >>= merge_span add shift n) ≡ ok m') c e))
  merge_span-HasMerged (suc n) m (count ∷ counts) out m' c h e =
      let (m1, stepped, e1) =
        bind-eq-ok (merge_bucket add shift m m.counts) (merge_span add shift n) e in
      let (h1, c1, i1) =
        merge_bucket-HasMerged m count counts out m1 h
          (subst (λ t. merge_bucket add shift m t ≡ ok m1) c stepped) in
      let (h2, c2, i2) =
        merge_span-HasMerged n m1 counts
          (push_bucket add shift out (target_index m.index shift, count)) m' c1 h1 e1 in
      (
        subst
            (λ i. HasMerged m' (
              push_all add shift (push_bucket add shift out (target_index m.index shift, count))
                (zip (run i n) counts)))
            i1 h2,
        c2,
        i2
            ∙ ap (λ t. t +ℤ pos n) i1
            ∙ eq_of_parts (m.index +ℤ pos 1 +ℤ pos n) (m.index +ℤ pos (suc n)) (omega int_laws),
      )

  merge_spans-HasMerged :
      (spans : List BucketSpan) (m : Merging A) (out : List (ℤ × A)) (m' : Merging A)
      → HasMerged m out
      → merge_spans add shift spans m ≡ ok m'
      → HasMerged m' (push_all add shift out (zip (indices m.index spans) m.counts))
  unfolding merge_spans indices zip push_all
  merge_spans-HasMerged [] m out m' h e = subst (λ x. HasMerged x out) (ok-injective m m' e) h
  merge_spans-HasMerged (span ∷ spans) m out m' h e =
      let shifted : Merging A = record m { index = m.index +ℤ span.offset } in
      let (m1, stepped, e1) =
        bind-eq-ok (merge_span add shift span.length shifted) (merge_spans add shift spans) e in
      let (h1, c1, i1) = merge_span-HasMerged span.length shifted m.counts out m1 refl h stepped in
      let later = merge_spans-HasMerged spans m1 _ m' h1 e1 in
      subst (HasMerged m')
        (ap
            (λ t.
              push_all add shift
                (push_all add shift out (zip (run shifted.index span.length) m.counts))
                (zip (indices t spans) m1.counts))
            i1
          ∙ ap
              (λ t.
                push_all add shift
                  (push_all add shift out (zip (run shifted.index span.length) m.counts))
                  (zip (indices (shifted.index +ℤ pos span.length) spans) t))
              c1
          ∙ sym (
              zip_runs shifted.index span.length (indices (shifted.index +ℤ pos span.length) spans)
                m.counts out))
        later

  -- Where the merging succeeds, the merged buckets are what one gets by sending each bucket, in order,
  -- to its index at the coarser schema, where it is added to the bucket in front of it if that has the
  -- same index.
  pub merge_buckets-push_all :
      (spans : List BucketSpan) (counts : List A) (out_spans : List BucketSpan)
      (out_counts : List A)
      → merge_buckets add shift spans counts ≡ ok (out_spans, out_counts)
      → buckets_of out_spans out_counts ≡ push_all add shift [] (buckets_of spans counts)
  unfolding merge_buckets
  merge_buckets-push_all spans counts out_spans out_counts e =
      let start : Merging A = record {
        out_spans = [];
        out_counts = [];
        counts = counts;
        index = pos 0;
        last = none;
      } in
      let (m, merged, e1) =
        bind-eq-ok (merge_spans add shift spans start) (λ m. ok (m.out_spans, m.out_counts)) e in
      let h = merge_spans-HasMerged spans start [] m (start-HasMerged counts) merged in
      subst (λ x. buckets_of x.0 x.1 ≡ push_all add shift [] (buckets_of spans counts))
        (ok-injective _ (out_spans, out_counts) e1)
        (IsMerged-buckets m.last m.out_spans m.out_counts _ h)
