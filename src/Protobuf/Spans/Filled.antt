-- ===== src/Protobuf/Spans/Filled.antt =====
-- One bucket of `merge_buckets` of src/protobuf.rs, as the merging of a bucket.
use mathlib.Core.Path.{subst}
use prometheus_scrape_rs.Base.{
  ℕ, ◌+◌, true, false, List, [], ◌∷◌, ◌++◌, Option, none, some, length, length-append, append_assoc,
  if◌then◌else◌, Bool-cases, arith, ◌≡◌, refl, sym, ap, ◌∙◌, inl, inr,
}
use prometheus_scrape_rs.Base.Int.{ℤ, pos, ◌+ℤ◌, ◌-ℤ◌, eqb_ℤ, int_laws, eq_of_parts}
use prometheus_scrape_rs.Base.Result.{ok, bind-eq-ok, ok-injective}
use prometheus_scrape_rs.Model.{BucketSpan}
use prometheus_scrape_rs.Protobuf.Spans.{add_to_last, lengthen_last, to_i32, target_index, place}
use prometheus_scrape_rs.Protobuf.Spans.Layout.{
  run, indices, end_index, zip, zip-snoc, indices-push, indices-lengthen, end_index-append,
  end_index-lengthen, add_to_last-snoc,
}

to_i32-eq : (v offset : ℤ) → to_i32 v ≡ ok offset → v ≡ offset
unfolding to_i32
to_i32-eq v offset h = ground arith

lengthen_last-cons :
    (s : BucketSpan) (ss : List BucketSpan)
    → (span : BucketSpan) × (more : List BucketSpan) × (lengthen_last (s ∷ ss) ≡ span ∷ more)
unfolding lengthen_last
lengthen_last-cons s [] = (record { offset = s.offset; length = s.length + 1 }, [], refl)
lengthen_last-cons s (t ∷ ts) = (s, lengthen_last (t ∷ ts), refl)

module _ {A : Type 0} where
  -- The buckets of a side: index and count.
  abbrev pub buckets_of : List BucketSpan → List A → List (ℤ × A)
  buckets_of spans counts = zip (indices (pos 0) spans) counts

module _ {A : Type 0} (add : A → A → A) (shift : ℕ) where
  -- One more bucket behind merged ones: into the last, if that has its index.
  unfoldable pub push_bucket : List (ℤ × A) → ℤ × A → List (ℤ × A)
  push_bucket [] b = b ∷ []
  push_bucket (x ∷ []) b = if eqb_ℤ x.0 b.0 then (x.0, add x.1 b.1) ∷ [] else x ∷ b ∷ []
  push_bucket (x ∷ y ∷ ys) b = x ∷ push_bucket (y ∷ ys) b

  unfoldable pub push_all : List (ℤ × A) → List (ℤ × A) → List (ℤ × A)
  unfolding push_bucket
  push_all out [] = out
  push_all out (b ∷ bs) = push_all (push_bucket out (target_index b.0 shift, b.1)) bs

  push_bucket-snoc :
      (xs : List (ℤ × A)) (x b : ℤ × A)
      → push_bucket (xs ++ x ∷ []) b
        ≡ (if eqb_ℤ x.0 b.0 then xs ++ (x.0, add x.1 b.1) ∷ [] else xs ++ x ∷ b ∷ [])
  unfolding push_bucket
  push_bucket-snoc [] x b = refl
  push_bucket-snoc (a ∷ []) x b = elim (Bool-cases (eqb_ℤ x.0 b.0)) [ inl e ↦ rw e | inr e ↦ rw e ]
  push_bucket-snoc (a ∷ c ∷ xs) x b = elim (Bool-cases (eqb_ℤ x.0 b.0)) [
    | inl e ↦ rw e (ap (◌∷◌ a) (push_bucket-snoc (c ∷ xs) x b ∙ rw e refl))
    | inr e ↦ rw e (ap (◌∷◌ a) (push_bucket-snoc (c ∷ xs) x b ∙ rw e refl))
  ]

  -- What has been merged: the spans and counts filled so far describe `out`, and the last of these
  -- has the index `previous`.
  pub record IsFilled (spans : List BucketSpan) (counts : List A) (previous : ℤ)
      (out : List (ℤ × A)) : Type 0 where
    span : BucketSpan
    more : List BucketSpan
    has_span : spans ≡ span ∷ more
    front : List ℤ
    at_indices : indices (pos 0) spans ≡ front ++ previous ∷ []
    behind : end_index (pos 0) spans ≡ previous +ℤ pos 1
    front_counts : List A
    last_count : A
    at_counts : counts ≡ front_counts ++ last_count ∷ []
    same : length front ≡ length front_counts
    describes : zip front front_counts ++ (previous, last_count) ∷ [] ≡ out

  pub IsFilled-buckets :
      (spans : List BucketSpan) (counts : List A) (previous : ℤ) (out : List (ℤ × A))
      → IsFilled spans counts previous out
      → buckets_of spans counts ≡ out
  IsFilled-buckets spans counts previous out f =
      ap (λ t. zip t counts) f.at_indices
      ∙ ap (zip (f.front ++ previous ∷ [])) f.at_counts
      ∙ zip-snoc f.front f.front_counts previous f.last_count f.same
      ∙ f.describes

  -- Nothing is merged yet, or the last index is known.
  unfoldable pub IsMerged : Option ℤ → List BucketSpan → List A → List (ℤ × A) → Type 0
  IsMerged none spans counts out = (spans ≡ []) × (counts ≡ []) × (out ≡ [])
  IsMerged (some previous) spans counts out = IsFilled spans counts previous out

  into_last :
      (spans : List BucketSpan) (counts : List A) (previous target : ℤ) (count : A)
      (out : List (ℤ × A))
      → IsFilled spans counts previous out
      → eqb_ℤ previous target ≡ true
      → IsFilled spans (add_to_last add count counts) target (push_bucket out (target, count))
  into_last spans counts previous target count out f e =
      let same_index : previous ≡ target = eq_of_parts previous target (ground arith) in
      record {
        span = f.span;
        more = f.more;
        has_span = f.has_span;
        front = f.front;
        at_indices = f.at_indices ∙ ap (λ t. f.front ++ t ∷ []) same_index;
        behind = f.behind ∙ ap (λ t. t +ℤ pos 1) same_index;
        front_counts = f.front_counts;
        last_count = add f.last_count count;
        at_counts =
            ap (add_to_last add count) f.at_counts
            ∙ add_to_last-snoc add f.front_counts f.last_count count;
        same = f.same;
        describes =
            ap (λ t. zip f.front f.front_counts ++ (t, add f.last_count count) ∷ [])
              (sym same_index)
            ∙ sym (
                ap (λ t. push_bucket t (target, count)) (sym f.describes)
                ∙ push_bucket-snoc _ (previous, f.last_count) (target, count)
                ∙ rw e refl);
      }

  -- A further count, whose index the spans describe.
  behind_last :
      (spans spans' : List BucketSpan) (counts : List A) (previous target : ℤ) (count : A)
      (out : List (ℤ × A))
      → IsFilled spans counts previous out
      → eqb_ℤ previous target ≡ false
      → (span : BucketSpan) (more : List BucketSpan) → spans' ≡ span ∷ more
      → indices (pos 0) spans' ≡ indices (pos 0) spans ++ target ∷ []
      → end_index (pos 0) spans' ≡ target +ℤ pos 1
      → IsFilled spans' (counts ++ count ∷ []) target (push_bucket out (target, count))
  behind_last spans spans' counts previous target count out f e span more has at behind = record {
    span = span;
    more = more;
    has_span = has;
    front = f.front ++ previous ∷ [];
    at_indices = at ∙ ap (λ t. t ++ target ∷ []) f.at_indices;
    behind = behind;
    front_counts = f.front_counts ++ f.last_count ∷ [];
    last_count = count;
    at_counts = ap (λ t. t ++ count ∷ []) f.at_counts;
    same = omega (
      arith,
      f.same,
      length-append f.front (previous ∷ []),
      length-append f.front_counts (f.last_count ∷ []),
    );
    describes =
        ap (λ t. t ++ (target, count) ∷ [])
          (zip-snoc f.front f.front_counts previous f.last_count f.same)
        ∙ append_assoc (zip f.front f.front_counts) ((previous, f.last_count) ∷ [])
            ((target, count) ∷ [])
        ∙ sym (
            ap (λ t. push_bucket t (target, count)) (sym f.describes)
            ∙ push_bucket-snoc _ (previous, f.last_count) (target, count)
            ∙ rw e refl);
  }

  first :
      (target : ℤ) (count : A)
      → IsFilled
          ((record { offset = target; length = 1 }) ∷ [])
          (count ∷ [])
          target
          (push_bucket [] (target, count))
  unfolding indices run end_index zip push_bucket
  first target count =
      let at_target : pos 0 +ℤ target ≡ target = eq_of_parts _ target (omega int_laws) in
      record {
        span = record { offset = target; length = 1 };
        more = [];
        has_span = refl;
        front = [];
        at_indices = ap (λ t. t ∷ []) at_target;
        behind = ap (λ t. t +ℤ pos 1) at_target;
        front_counts = [];
        last_count = count;
        at_counts = refl;
        same = refl;
        describes = refl;
      }

  lengthened :
      (spans : List BucketSpan) (counts : List A) (previous target : ℤ) (count : A)
      (out : List (ℤ × A))
      → IsFilled spans counts previous out
      → eqb_ℤ previous target ≡ false
      → end_index (pos 0) spans ≡ target
      → IsFilled
          (lengthen_last spans)
          (counts ++ count ∷ [])
          target
          (push_bucket out (target, count))
  lengthened spans counts previous target count out f e index =
      let (span, more, has) = lengthen_last-cons f.span f.more in
      behind_last spans (lengthen_last spans) counts previous target count out f e span more
        (ap lengthen_last f.has_span ∙ has)
        (rw f.has_span (indices-lengthen (pos 0) f.span f.more)
          ∙ ap (λ t. indices (pos 0) spans ++ t ∷ []) index)
        (rw f.has_span (end_index-lengthen (pos 0) f.span f.more) ∙ ap (λ t. t +ℤ pos 1) index)

  appended :
      (spans : List BucketSpan) (counts : List A) (previous target : ℤ) (count : A)
      (out : List (ℤ × A))
      → IsFilled spans counts previous out
      → eqb_ℤ previous target ≡ false
      → (offset : ℤ) → end_index (pos 0) spans +ℤ offset ≡ target
      → IsFilled
          (spans ++ (record { offset = offset; length = 1 }) ∷ [])
          (counts ++ count ∷ [])
          target
          (push_bucket out (target, count))
  unfolding end_index
  appended spans counts previous target count out f e offset index =
      let span : BucketSpan = record { offset = offset; length = 1 } in
      behind_last spans (spans ++ span ∷ []) counts previous target count out f e f.span
        (f.more ++ span ∷ []) (ap (λ t. t ++ span ∷ []) f.has_span)
        (indices-push spans offset ∙ ap (λ t. indices (pos 0) spans ++ t ∷ []) index)
        (end_index-append (pos 0) spans (span ∷ []) ∙ ap (λ t. t +ℤ pos 1) index)

  pub place-IsFilled :
      (last : Option ℤ) (spans : List BucketSpan) (counts : List A) (target : ℤ) (count : A)
      (out : List (ℤ × A)) (found : List BucketSpan × List A)
      → IsMerged last spans counts out
      → place add last spans counts target count ≡ ok found
      → IsFilled found.0 found.1 target (push_bucket out (target, count))
  unfolding place to_i32 IsMerged
  place-IsFilled none spans counts target count out found (no_spans, no_counts, no_out) e =
      let (offset, fits, e1) =
        bind-eq-ok (to_i32 target)
          (λ offset.
            ok (spans ++ (record { offset = offset; length = 1 }) ∷ [], counts ++ count ∷ []))
          e in
      let same_offset = to_i32-eq target offset fits in
      let starts : IsFilled ([] ++ (record { offset = target; length = 1 }) ∷ []) ([] ++ count ∷ [])
          target (push_bucket [] (target, count)) =
        first target count in
      subst (λ x. IsFilled x.0 x.1 target (push_bucket out (target, count)))
        (ok-injective _ found e1) (rw (no_spans, no_counts, no_out, ← same_offset) starts)
  place-IsFilled (some previous) spans counts target count out found f e =
      elim (Bool-cases (eqb_ℤ previous target)) [
        | inl same ↦
            subst (λ x. IsFilled x.0 x.1 target (push_bucket out (target, count)))
              (ok-injective _ found (rw same at e))
              (into_last spans counts previous target count out f same)
        | inr other ↦ elim (Bool-cases (eqb_ℤ (previous +ℤ pos 1) target)) [
          | inl next ↦
              let at_next : previous +ℤ pos 1 ≡ target = eq_of_parts _ target (ground arith) in
              let index = f.behind ∙ at_next in
              subst (λ x. IsFilled x.0 x.1 target (push_bucket out (target, count)))
                (ok-injective _ found (rw (other, next) at e))
                (lengthened spans counts previous target count out f other index)
          | inr gap ↦
              let (offset, fits, e1) =
                bind-eq-ok (to_i32 (target -ℤ previous -ℤ pos 1))
                  (λ offset.
                    ok (
                      spans ++ (record { offset = offset; length = 1 }) ∷ [],
                      counts ++ count ∷ [],
                    ))
                  (rw (other, gap) at e) in
              let index : end_index (pos 0) spans +ℤ offset ≡ target =
                ap (λ t. t +ℤ offset) f.behind
                ∙ ap (λ t. previous +ℤ pos 1 +ℤ t)
                    (sym (to_i32-eq (target -ℤ previous -ℤ pos 1) offset fits))
                ∙ eq_of_parts (previous +ℤ pos 1 +ℤ (target -ℤ previous -ℤ pos 1)) target
                    (omega int_laws) in
              subst (λ x. IsFilled x.0 x.1 target (push_bucket out (target, count)))
                (ok-injective _ found e1)
                (appended spans counts previous target count out f other offset index)
        ]
      ]
