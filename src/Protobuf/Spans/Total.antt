-- ===== src/Protobuf/Spans/Total.antt =====
-- `merge_buckets` of src/protobuf.rs gives a result for every side that `validate_side` accepts.
use native.Mathlib.Nat.{
  pow-suc, div-div-eq-div-mul, div-le_self, le-div_iff_mul-le, div-mul-le_self, one-le-pow,
}
use prometheus_scrape_rs.Base.{
  ℕ, zero, suc, ◌+◌, ◌*◌, ◌/◌, ◌%◌, ◌^◌, ◌≤◌, ◌<◌, max, Bool, true, false, not, ◌&&◌, List, [], ◌∷◌,
  Option, none, some, length, ◌==◌, Bool-cases, arith, ◌≡◌, refl, sym, ap, ◌∙◌, inl, inr,
}
use prometheus_scrape_rs.Base.Int.{
  ℤ, pos, negsuc, pos_part, neg_part, ◌+ℤ◌, ◌-ℤ◌, ◌≤ℤ◌, eqb_ℤ, ltb_ℤ, fits_i32, IsI32, int_laws,
  eq_of_parts,
}
use prometheus_scrape_rs.Base.Result.{
  Result, ok, err, ◌>>=◌, ◌>>◌, refuse, Ensures, Anything, bind-Ensures, map-Ensures, bind-eq-ok,
  refuse-eq-ok,
}
use prometheus_scrape_rs.Model.{BucketSpan}
use prometheus_scrape_rs.Protobuf.{Error, Side, coverage_differs}
use prometheus_scrape_rs.Protobuf.Spans.Filled.{buckets_of, push_all}
use prometheus_scrape_rs.Protobuf.Spans.Merge.{merge_buckets-push_all}
use prometheus_scrape_rs.Protobuf.Spans.{
  walk_spans, check_deltas, validate_side, shift_right, target_index, to_i32, place, Merging,
  merge_bucket, merge_span, merge_spans, merge_buckets,
}

abbrev Never : Error → Type 0
Never e = ⊥

-- From -2^30 to 2^30: the indices at a coarser schema.
abbrev IsHalf : ℤ → Type 0
IsHalf v = (pos_part v ≤ 2 ^ 30) × (neg_part v ≤ 2 ^ 30)

halve : (n k : ℕ) → 1 ≤ k → n / 2 ^ k * 2 ≤ n
halve n zero h = absurd (omega (arith, h))
halve n (suc k) h =
    let split : n / 2 ^ suc k ≡ n / 2 ^ k / 2 =
      ap (λ d. n / d) (pow-suc 2 k) ∙ sym (div-div-eq-div-mul n (2 ^ k) 2) in
    rw split (omega (arith, div-le_self n (2 ^ k)))

add_one-IsHalf : (v : ℤ) → pos_part v < 2 ^ 30 → neg_part v ≤ 2 ^ 30 + 1 → IsHalf (v +ℤ pos 1)
unfolding ◌+ℤ◌
add_one-IsHalf (pos n) hp hn = (ground (arith, hp), ground (arith, hp))
add_one-IsHalf (negsuc n) hp hn = (ground (arith, hn), ground (arith, hn))

less_one :
    (v : ℤ)
    → IsI32 v
    → (pos_part (v -ℤ pos 1) + 1 < 2 ^ 31 + 1) × (neg_part (v -ℤ pos 1) ≤ 2 ^ 31 + 1)
unfolding ◌-ℤ◌
less_one (pos n) (hp, hn) = (ground (arith, hp), ground (arith, hp))
less_one (negsuc n) (hp, hn) = (ground (arith, hn), ground (arith, hn))

target_index-IsHalf :
    (index : ℤ) (shift : ℕ) → IsI32 index → 1 ≤ shift % 64 → IsHalf (target_index index shift)
unfolding target_index shift_right
target_index-IsHalf index shift i some_shift =
    by_part (index -ℤ pos 1) (less_one index i).0 (less_one index i).1
  where
    by_part :
        (v : ℤ)
        → pos_part v + 1 < 2 ^ 31 + 1
        → neg_part v ≤ 2 ^ 31 + 1
        → IsHalf (shift_right v shift +ℤ pos 1)
    by_part (pos n) hp hn =
        add_one-IsHalf (pos (n / 2 ^ (shift % 64)))
          (omega (arith, hp, halve n (shift % 64) some_shift)) (omega arith)
    by_part (negsuc n) hp hn =
        add_one-IsHalf (negsuc (n / 2 ^ (shift % 64))) (omega arith)
          (omega (arith, hn, halve n (shift % 64) some_shift))

div_mono : (a b k : ℕ) → a ≤ b → a / 2 ^ k ≤ b / 2 ^ k
div_mono a b k h =
    (le-div_iff_mul-le {k = 2 ^ k} {x = a / 2 ^ k} {y = b}
        (omega (arith, one-le-pow k 2 (omega arith)))).1
      (omega (arith, div-mul-le_self a (2 ^ k), h))

-- Ascending indices stay so.
shift_right-mono : (a b : ℤ) (shift : ℕ) → a ≤ℤ b → shift_right a shift ≤ℤ shift_right b shift
unfolding shift_right
shift_right-mono (pos a) (pos b) shift h =
    omega (arith, div_mono a b (shift % 64) (omega (arith, h)))
shift_right-mono (pos a) (negsuc b) shift h = absurd (omega (arith, h))
shift_right-mono (negsuc a) (pos b) shift h = omega arith
shift_right-mono (negsuc a) (negsuc b) shift h =
    omega (arith, div_mono b a (shift % 64) (omega (arith, h)))

add_one-mono : (a b : ℤ) → a ≤ℤ b → (a +ℤ pos 1) ≤ℤ (b +ℤ pos 1)
add_one-mono a b h = omega (int_laws, h)

less_one-mono : (a b : ℤ) → a ≤ℤ b → (a -ℤ pos 1) ≤ℤ (b -ℤ pos 1)
less_one-mono a b h = omega (int_laws, h)

target_index-mono : (a b : ℤ) (shift : ℕ) → a ≤ℤ b → target_index a shift ≤ℤ target_index b shift
unfolding target_index
target_index-mono a b shift h =
    add_one-mono _ _ (shift_right-mono (a -ℤ pos 1) (b -ℤ pos 1) shift (less_one-mono a b h))

-- The difference of two such indices, less one, is in the range of an `i32`, where the second is not the larger one.
difference-fits : (a b : ℤ) → IsHalf a → IsHalf b → b ≤ℤ a → fits_i32 (a -ℤ b -ℤ pos 1) ≡ true
unfolding ◌-ℤ◌
difference-fits (pos a) (pos b) ha hb le = ground (arith, ha, hb, le)
difference-fits (pos a) (negsuc b) ha hb le = ground (arith, ha, hb)
difference-fits (negsuc a) (pos b) ha hb le = absurd (omega (arith, le))
difference-fits (negsuc a) (negsuc b) ha hb le = ground (arith, ha, hb, le)

half-fits : (a : ℤ) → IsHalf a → fits_i32 a ≡ true
half-fits a ha = ground (arith, ha)

-- The index filled last is not above the one that comes next.
abbrev IsBehind : ℕ → Option ℤ → ℤ → Type 0
IsBehind shift none index = Unit {0}
IsBehind shift (some previous) index = IsHalf previous × (previous ≤ℤ target_index index shift)

module _ {A : Type 0} (add : A → A → A) (shift : ℕ) (some_shift : 1 ≤ shift % 64) where
  to_i32-ok :
      {B : Type 0} (v : ℤ) (k : ℤ → Result Error B)
      → fits_i32 v ≡ true
      → Ensures Never Anything (k v)
      → Ensures Never Anything (to_i32 v >>= k)
  unfolding to_i32
  to_i32-ok v k fits h = rw fits h

  place-total :
      (last : Option ℤ) (spans : List BucketSpan) (counts : List A) (index : ℤ) (count : A)
      → IsI32 index
      → IsBehind shift last index
      → Ensures Never Anything (place add last spans counts (target_index index shift) count)
  unfolding place
  place-total none spans counts index count i behind =
      to_i32-ok (target_index index shift) _
        (half-fits _ (target_index-IsHalf index shift i some_shift)) tt
  place-total (some previous) spans counts index count i (half, below) =
      let target = target_index index shift in
      elim (Bool-cases (eqb_ℤ previous target)) [
        | inl e ↦ rw e tt
        | inr e ↦ elim (Bool-cases (eqb_ℤ (previous +ℤ pos 1) target)) [
          | inl f ↦ rw (e, f) tt
          | inr f ↦
              rw (e, f)
                (to_i32-ok (target -ℤ previous -ℤ pos 1) _
                  (difference-fits target previous (target_index-IsHalf index shift i some_shift)
                    half below)
                  tt)
        ]
      ]

  -- Before `n` more buckets: their indices are in range, and their counts are there.
  record IsReady (n : ℕ) (m : Merging A) : Type 0 where
    low : neg_part m.index ≤ 2 ^ 31
    high : pos_part m.index + n ≤ 2 ^ 31 + neg_part m.index
    enough : n ≤ length m.counts
    behind : IsBehind shift m.last m.index

  -- After them.
  record IsAfter (n : ℕ) (m m' : Merging A) : Type 0 where
    index : m'.index ≡ m.index +ℤ pos n
    counts : length m'.counts + n ≡ length m.counts
    behind : IsBehind shift m'.last m'.index

  in_range :
      (i : ℤ) (n : ℕ) → neg_part i ≤ 2 ^ 31 → pos_part i + suc n ≤ 2 ^ 31 + neg_part i → IsI32 i
  in_range (pos i) n low high = (omega (arith, high), omega arith)
  in_range (negsuc i) n low high = (omega arith, low)

  next_low : (i : ℤ) → neg_part (i +ℤ pos 1) ≤ neg_part i
  unfolding ◌+ℤ◌
  next_low (pos i) = ground arith
  next_low (negsuc i) = ground arith

  merge_bucket-total :
      (n : ℕ) (m : Merging A) (counts : List A)
      → m.counts ≡ counts
      → IsReady (suc n) m
      → Ensures Never (λ m'. IsReady n m' × IsAfter 1 m m') (merge_bucket add shift m counts)
  unfolding merge_bucket
  merge_bucket-total n m [] same r = absurd (omega (arith, r.enough, ap length same))
  merge_bucket-total n m (count ∷ counts) same r =
      let i = in_range m.index n r.low r.high in
      let target = target_index m.index shift in
      let forward : IsBehind shift (some target) (m.index +ℤ pos 1) = (
        target_index-IsHalf m.index shift i some_shift,
        target_index-mono m.index (m.index +ℤ pos 1) shift (omega int_laws),
      ) in
      bind-Ensures Never Anything (λ m'. IsReady n m' × IsAfter 1 m m')
        (place add m.last m.out_spans m.out_counts target count) _
        (place-total m.last m.out_spans m.out_counts m.index count i r.behind)
        (λ out _. (
          record {
            low = omega (arith, next_low m.index, r.low);
            high = omega (int_laws, r.high);
            enough = omega (arith, r.enough, ap length same);
            behind = forward;
          },
          record { index = refl; counts = omega (arith, ap length same); behind = forward },
        ))

  merge_span-total :
      (n : ℕ) (m : Merging A) → IsReady n m → Ensures Never (IsAfter n m) (merge_span add shift n m)
  unfolding merge_span
  merge_span-total zero m r = record {
    index = eq_of_parts m.index (m.index +ℤ pos 0) (omega int_laws);
    counts = omega arith;
    behind = r.behind;
  }
  merge_span-total (suc n) m r =
      bind-Ensures Never (λ m1. IsReady n m1 × IsAfter 1 m m1) (IsAfter (suc n) m)
        (merge_bucket add shift m m.counts) (merge_span add shift n)
        (merge_bucket-total n m m.counts refl r)
        (λ m1 (ready, one).
          map-Ensures Never (IsAfter n m1) (IsAfter (suc n) m) (merge_span add shift n m1)
            (λ m2 rest. record {
              index =
                  rest.index
                  ∙ ap (λ i. i +ℤ pos n) one.index
                  ∙ eq_of_parts (m.index +ℤ pos 1 +ℤ pos n) (m.index +ℤ pos (suc n))
                      (omega int_laws);
              counts = omega (arith, rest.counts, one.counts);
              behind = rest.behind;
            })
            (merge_span-total n m1 ready))

  walk_spans-covers :
      (side : Side) (later : Bool) (next : ℤ) (covered total : ℕ) (spans : List BucketSpan)
      → walk_spans side later next covered spans ≡ ok total
      → covered ≤ total
  unfolding walk_spans
  walk_spans-covers side later next covered total [] e = ground (arith, e)
  walk_spans-covers side later next covered total (s ∷ ss) e =
      let first = next +ℤ s.offset in
      let step =
        walk_spans-covers side true (first +ℤ pos s.length) (covered + s.length) total ss in
      ground (arith, e, step)

  -- What the checks of one span say.
  record IsWalked (side : Side) (later : Bool) (next : ℤ) (covered total : ℕ) (s : BucketSpan)
      (ss : List BucketSpan) : Type 0 where
    forward : later && ltb_ℤ s.offset (pos 0) ≡ false
    first : fits_i32 (next +ℤ s.offset) ≡ true
    last : fits_i32 (next +ℤ s.offset +ℤ pos (max s.length 1) -ℤ pos 1) ≡ true
    rest :
        walk_spans side true (next +ℤ s.offset +ℤ pos s.length) (covered + s.length) ss ≡ ok total

  walk_spans-IsWalked :
      (side : Side) (later : Bool) (next : ℤ) (covered total : ℕ) (s : BucketSpan)
      (ss : List BucketSpan)
      → walk_spans side later next covered (s ∷ ss) ≡ ok total
      → IsWalked side later next covered total s ss
  unfolding walk_spans
  walk_spans-IsWalked side later next covered total s ss e = record {
    forward = ground (arith, e);
    first = ground (arith, e);
    last = ground (arith, e);
    rest = ground (arith, e);
  }

  abbrev IsStart : Bool → Option ℤ → ℤ → Type 0
  IsStart false last index = last ≡ none
  IsStart true last index = IsBehind shift last index

  -- The next span starts at its offset.
  moved :
      (later : Bool) (last : Option ℤ) (index offset : ℤ)
      → later && ltb_ℤ offset (pos 0) ≡ false
      → IsStart later last index
      → IsBehind shift last (index +ℤ offset)
  moved false last index offset forward start = rw start tt
  moved true none index offset forward start = tt
  moved true (some previous) index offset forward (half, below) =
      let ascends : neg_part offset ≤ pos_part offset = ground (arith, forward) in
      let up = target_index-mono index (index +ℤ offset) shift (omega (int_laws, ascends)) in
      (half, omega (arith, up, below))

  span_range :
      (v : ℤ) (n : ℕ)
      → fits_i32 v ≡ true
      → fits_i32 (v +ℤ pos (max n 1) -ℤ pos 1) ≡ true
      → (neg_part v ≤ 2 ^ 31) × (pos_part v + n ≤ 2 ^ 31 + neg_part v)
  span_range v n first last =
      let low : neg_part v ≤ 2 ^ 31 = ground (arith, first) in
      let high : pos_part (v +ℤ pos (max n 1) -ℤ pos 1) < 2 ^ 31 = ground (arith, last) in
      (low, omega (int_laws, high))

  merge_spans-total :
      (side : Side) (later : Bool) (next : ℤ) (covered total : ℕ) (spans : List BucketSpan)
      (m : Merging A)
      → walk_spans side later next covered spans ≡ ok total
      → m.index ≡ next
      → total ≤ covered + length m.counts
      → IsStart later m.last m.index
      → Ensures Never Anything (merge_spans add shift spans m)
  unfolding merge_spans
  merge_spans-total side later next covered total [] m e same enough start = tt
  merge_spans-total side later next covered total (s ∷ ss) m e same enough start =
      let w = walk_spans-IsWalked side later next covered total s ss e in
      let shifted : Merging A = record m { index = m.index +ℤ s.offset } in
      let at : m.index +ℤ s.offset ≡ next +ℤ s.offset = ap (λ i. i +ℤ s.offset) same in
      let range = span_range (next +ℤ s.offset) s.length w.first w.last in
      let covers =
        walk_spans-covers side true (next +ℤ s.offset +ℤ pos s.length) (covered + s.length) total ss
          w.rest in
      let ready : IsReady s.length shifted = record {
        low = omega (arith, ap neg_part at, range.0);
        high = omega (arith, ap neg_part at, ap pos_part at, range.1);
        enough = omega (arith, enough, covers);
        behind = moved later m.last m.index s.offset w.forward start;
      } in
      bind-Ensures Never (IsAfter s.length shifted) Anything (merge_span add shift s.length shifted)
        (merge_spans add shift ss) (merge_span-total s.length shifted ready)
        (λ m1 a.
          merge_spans-total side true (next +ℤ s.offset +ℤ pos s.length) (covered + s.length) total
            ss m1 w.rest (a.index ∙ ap (λ i. i +ℤ s.offset +ℤ pos s.length) same)
            (omega (arith, a.counts, enough)) a.behind)

  merge_buckets-total :
      (side : Side) (spans : List BucketSpan) (counts : List A) (covered : ℕ)
      → walk_spans side false (pos 0) 0 spans ≡ ok covered
      → covered ≤ length counts
      → Ensures Never Anything (merge_buckets add shift spans counts)
  unfolding merge_buckets
  merge_buckets-total side spans counts covered walked enough =
      let start : Merging A = record {
        out_spans = [];
        out_counts = [];
        counts = counts;
        index = pos 0;
        last = none;
      } in
      bind-Ensures Never Anything Anything (merge_spans add shift spans start) _
        (merge_spans-total side false (pos 0) 0 covered spans start walked refl
          (omega (arith, enough)) refl)
        (λ m _. tt)

  -- For a shift whose remainder by 64 is not 0, the merging of a side that `validate_side` accepts, with a
  -- bucket for each count, does not fail. What it gives has each bucket, in order, at its index of the coarser
  -- schema, added to the one in front of it where that has the same index.
  pub merge_buckets-Merges :
      (side : Side) (spans : List BucketSpan) (counts : List A) (deltas : List ℤ)
      → validate_side side spans (length counts) deltas ≡ ok tt
      → (out_spans : List BucketSpan) × (out_counts : List A) × (merge_buckets add shift spans
            counts
          ≡ ok (out_spans, out_counts))
        × (buckets_of out_spans out_counts ≡ push_all add shift [] (buckets_of spans counts))
  unfolding validate_side
  merge_buckets-Merges side spans counts deltas valid =
      let (covered, walked, checked) =
        bind-eq-ok (walk_spans side false (pos 0) 0 spans)
          (λ covered.
            refuse (not (covered == length counts)) (coverage_differs side covered (length counts))
            >> check_deltas side (pos 0) deltas)
          valid in
      let (u, agreed, deltas_fit) =
        bind-eq-ok
          (refuse (not (covered == length counts)) (coverage_differs side covered (length counts)))
          (λ _. check_deltas side (pos 0) deltas) checked in
      let same : not (covered == length counts) ≡ false = refuse-eq-ok _ _ u agreed in
      merged (merge_buckets add shift spans counts) refl
        (merge_buckets-total side spans counts covered walked (ground (arith, same)))
    where
      merged :
          (r : Result Error (List BucketSpan × List A))
          → merge_buckets add shift spans counts ≡ r
          → Ensures Never Anything r
          → (out_spans : List BucketSpan) × (out_counts : List A) × (merge_buckets add shift spans
                counts
              ≡ ok (out_spans, out_counts))
            × (buckets_of out_spans out_counts ≡ push_all add shift [] (buckets_of spans counts))
      merged (err e) same never = absurd never
      merged (ok (out_spans, out_counts)) same h = (
        out_spans,
        out_counts,
        same,
        merge_buckets-push_all add shift spans counts out_spans out_counts same,
      )
