-- ===== src/Protobuf/Spans/Layout.antt =====
-- Which bucket each count of a histogram of src/protobuf.rs belongs to.
use prometheus_scrape_rs.Base.{
  ℕ, zero, suc, ◌+◌, List, [], ◌∷◌, ◌++◌, drop, length, append_assoc, append-nil, arith, ◌≡◌, refl,
  sym, ap, ◌∙◌,
}
use prometheus_scrape_rs.Base.Int.{ℤ, pos, ◌+ℤ◌, int_laws, eq_of_parts, +ℤ_parts}
use prometheus_scrape_rs.Model.{BucketSpan}
use prometheus_scrape_rs.Protobuf.Spans.{add_to_last, lengthen_last}

-- The indices of a run of buckets.
unfoldable pub run : ℤ → ℕ → List ℤ
run i zero = []
run i (suc n) = i ∷ run (i +ℤ pos 1) n

-- The indices of all buckets of the spans, and the index behind the last of them.
unfoldable pub indices : ℤ → List BucketSpan → List ℤ
unfolding run
indices i [] = []
indices i (s ∷ ss) = run (i +ℤ s.offset) s.length ++ indices (i +ℤ s.offset +ℤ pos s.length) ss

unfoldable pub end_index : ℤ → List BucketSpan → ℤ
end_index i [] = i
end_index i (s ∷ ss) = end_index (i +ℤ s.offset +ℤ pos s.length) ss

pub +ℤ_zero : (i : ℤ) → i +ℤ pos 0 ≡ i
+ℤ_zero i = eq_of_parts _ _ (omega (arith, +ℤ_parts i (pos 0)))

pub run-snoc : (i : ℤ) (n : ℕ) → run i (n + 1) ≡ run i n ++ (i +ℤ pos n) ∷ []
unfolding run
run-snoc i zero = ap (λ t. t ∷ []) (sym (+ℤ_zero i))
run-snoc i (suc n) =
    let e : suc n + 1 ≡ suc (n + 1) = omega arith in
    rw e (
      ap (◌∷◌ i) (
        run-snoc (i +ℤ pos 1) n
        ∙ ap (λ t. run (i +ℤ pos 1) n ++ t ∷ [])
            (eq_of_parts (i +ℤ pos 1 +ℤ pos n) (i +ℤ pos (suc n)) (omega int_laws))))

one : (i : ℤ) → run i 1 ≡ i ∷ []
unfolding run
one i = refl

pub indices-append :
    (i : ℤ) (xs ys : List BucketSpan)
    → indices i (xs ++ ys) ≡ indices i xs ++ indices (end_index i xs) ys
unfolding indices end_index
indices-append i [] ys = refl
indices-append i (s ∷ ss) ys =
    ap (λ t. run (i +ℤ s.offset) s.length ++ t)
      (indices-append (i +ℤ s.offset +ℤ pos s.length) ss ys)
    ∙ sym
        (append_assoc (run (i +ℤ s.offset) s.length) (indices (i +ℤ s.offset +ℤ pos s.length) ss) _)

pub end_index-append :
    (i : ℤ) (xs ys : List BucketSpan) → end_index i (xs ++ ys) ≡ end_index (end_index i xs) ys
unfolding end_index
end_index-append i [] ys = refl
end_index-append i (s ∷ ss) ys = end_index-append (i +ℤ s.offset +ℤ pos s.length) ss ys

-- A further span of one bucket.
pub indices-push :
    (spans : List BucketSpan) (offset : ℤ)
    → indices (pos 0) (spans ++ (record { offset = offset; length = 1 }) ∷ [])
      ≡ indices (pos 0) spans ++ (end_index (pos 0) spans +ℤ offset) ∷ []
unfolding indices run
indices-push spans offset =
    indices-append (pos 0) spans ((record { offset = offset; length = 1 }) ∷ [])

pub indices-lengthen :
    (i : ℤ) (s : BucketSpan) (ss : List BucketSpan)
    → indices i (lengthen_last (s ∷ ss)) ≡ indices i (s ∷ ss) ++ end_index i (s ∷ ss) ∷ []
unfolding indices end_index lengthen_last
indices-lengthen i s [] =
    append-nil _
    ∙ run-snoc (i +ℤ s.offset) s.length
    ∙ ap (λ t. t ++ (i +ℤ s.offset +ℤ pos s.length) ∷ []) (sym (append-nil _))
indices-lengthen i s (t ∷ ts) =
    ap (λ x. run (i +ℤ s.offset) s.length ++ x)
      (indices-lengthen (i +ℤ s.offset +ℤ pos s.length) t ts)
    ∙ sym (
        append_assoc (run (i +ℤ s.offset) s.length)
          (indices (i +ℤ s.offset +ℤ pos s.length) (t ∷ ts)) _)

pub end_index-lengthen :
    (i : ℤ) (s : BucketSpan) (ss : List BucketSpan)
    → end_index i (lengthen_last (s ∷ ss)) ≡ end_index i (s ∷ ss) +ℤ pos 1
unfolding end_index lengthen_last
end_index-lengthen i s [] = eq_of_parts _ _ (omega int_laws)
end_index-lengthen i s (t ∷ ts) = end_index-lengthen (i +ℤ s.offset +ℤ pos s.length) t ts

module _ {ℓ κ} {A : Type ℓ} {B : Type κ} where
  unfoldable pub zip : List A → List B → List (A × B)
  zip [] ys = []
  zip (x ∷ xs) [] = []
  zip (x ∷ xs) (y ∷ ys) = (x, y) ∷ zip xs ys

  pub zip-snoc :
      (xs : List A) (ys : List B) (x : A) (y : B)
      → length xs ≡ length ys
      → zip (xs ++ x ∷ []) (ys ++ y ∷ []) ≡ zip xs ys ++ (x, y) ∷ []
  unfolding zip
  zip-snoc [] [] x y e = refl
  zip-snoc (a ∷ rest) [] x y e = absurd (omega (arith, e))
  zip-snoc [] (b ∷ bs) x y e = absurd (omega (arith, e))
  zip-snoc (a ∷ rest) (b ∷ bs) x y e = ap (◌∷◌ (a, b)) (zip-snoc rest bs x y (omega (arith, e)))

  pub zip-append :
      (xs ys : List A) (zs : List B) → zip (xs ++ ys) zs ≡ zip xs zs ++ zip ys (drop (length xs) zs)
  unfolding zip
  zip-append [] ys zs = refl
  zip-append (x ∷ xs) [] [] = refl
  zip-append (x ∷ xs) (y ∷ ys) [] = refl
  zip-append (x ∷ xs) ys (z ∷ zs) = ap (◌∷◌ (x, z)) (zip-append xs ys zs)

pub length-run : (i : ℤ) (n : ℕ) → length (run i n) ≡ n
unfolding run
length-run i zero = refl
length-run i (suc n) = omega (arith, length-run (i +ℤ pos 1) n)

pub add_to_last-snoc {ℓ} :
    {A : Type ℓ} (add : A → A → A) (xs : List A) (x count : A)
    → add_to_last add count (xs ++ x ∷ []) ≡ xs ++ add x count ∷ []
unfolding add_to_last
add_to_last-snoc add [] x count = refl
add_to_last-snoc add (a ∷ []) x count = refl
add_to_last-snoc add (a ∷ b ∷ xs) x count = ap (◌∷◌ a) (add_to_last-snoc add (b ∷ xs) x count)
