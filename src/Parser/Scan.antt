-- ===== src/Parser/Scan.antt =====
-- `parse_label_value` of src/parser.rs.
use prometheus_scrape_rs.Base.{
  ℕ, Bool, false, [], ◌∷◌, ◌++◌, Bytes, ◌==◌, ◌≡◌, ap, inl, inr, ◌⊎◌, refl, if◌then◌else◌, any,
  Bool-cases, arith,
}
use prometheus_scrape_rs.Parser.{
  Message, Result, ok, err, ◌>>=◌, scan_value, decode_escapes, escaped_byte, parse_label_value,
}

-- The printer of a label value.
unfoldable pub escape : Bytes → Bytes
escape [] = []
escape (c ∷ cs) =
    if c == b'\\'
    then b'\\' ∷ b'\\' ∷ escape cs
    else if c == b'"'
    then b'\\' ∷ b'"' ∷ escape cs
    else if c == b'\n'
    then b'\\' ∷ b'n' ∷ escape cs
    else c ∷ escape cs

pub Result-cases {ℓ} :
    {A : Type ℓ} (r : Result A) → ((a : A) × (r ≡ ok a)) ⊎ ((m : Message) × (r ≡ err m))
Result-cases (ok a) = inl (a, refl)
Result-cases (err m) = inr (m, refl)

abbrev is_backslash : ℕ → Bool
is_backslash c = c == b'\\'

scan_value-quote : (s : Bytes) → scan_value (b'"' ∷ s) ≡ ok ([], s)
unfolding scan_value
scan_value-quote [] = refl
scan_value-quote (d ∷ s) = refl

scan_value-plain :
    (c : ℕ) (s raw rest : Bytes)
    → (c == b'"') ≡ false
    → is_backslash c ≡ false
    → scan_value s ≡ ok (raw, rest)
    → scan_value (c ∷ s) ≡ ok (c ∷ raw, rest)
unfolding scan_value
scan_value-plain c [] raw rest not_quote plain found = ground arith
scan_value-plain c (d ∷ s) raw rest not_quote plain found = ground arith

scan_value-pair :
    (d : ℕ) (s raw rest : Bytes)
    → scan_value s ≡ ok (raw, rest)
    → scan_value (b'\\' ∷ d ∷ s) ≡ ok (b'\\' ∷ d ∷ raw, rest)
unfolding scan_value
scan_value-pair d s raw rest found = rw (found)

scan_value-escape : (v rest : Bytes) → scan_value (escape v ++ b'"' ∷ rest) ≡ ok (escape v, rest)
unfolding escape
scan_value-escape [] rest = scan_value-quote rest
scan_value-escape (c ∷ cs) rest =
    let later = scan_value-escape cs rest in
    elim (Bool-cases (c == b'\\')) [
      | inl e ↦ rw (e) (scan_value-pair _ _ _ _ later)
      | inr backslash ↦ elim (Bool-cases (c == b'"')) [
        | inl e ↦ rw (backslash, e) (scan_value-pair _ _ _ _ later)
        | inr quote ↦ elim (Bool-cases (c == b'\n')) [
          | inl e ↦ rw (backslash, quote, e) (scan_value-pair _ _ _ _ later)
          | inr e ↦ rw (backslash, quote, e) (scan_value-plain _ _ _ _ quote backslash later)
        ]
      ]
    ]

decode_escapes-plain :
    (c : ℕ) (s v : Bytes)
    → is_backslash c ≡ false
    → decode_escapes s ≡ ok v
    → decode_escapes (c ∷ s) ≡ ok (c ∷ v)
unfolding decode_escapes
decode_escapes-plain c [] v plain found = ground arith
decode_escapes-plain c (d ∷ s) v plain found = ground arith

decode_escapes-pair :
    (c d : ℕ) (s v : Bytes)
    → escaped_byte d ≡ ok c
    → decode_escapes s ≡ ok v
    → decode_escapes (b'\\' ∷ d ∷ s) ≡ ok (c ∷ v)
unfolding decode_escapes
decode_escapes-pair c d s v escaped found = rw (escaped, found)

decode_escapes-escape : (v : Bytes) → decode_escapes (escape v) ≡ ok v
unfolding escape decode_escapes escaped_byte
decode_escapes-escape [] = refl
decode_escapes-escape (c ∷ cs) =
    let later = decode_escapes-escape cs in
    elim (Bool-cases (c == b'\\')) [
      | inl e ↦
          rw (e)
            (rw (decode_escapes-pair _ _ _ _ refl later) (ap (λ b. ok (b ∷ cs)) (ground arith)))
      | inr backslash ↦ elim (Bool-cases (c == b'"')) [
        | inl e ↦
            rw (backslash, e)
              (rw (decode_escapes-pair _ _ _ _ refl later) (ap (λ b. ok (b ∷ cs)) (ground arith)))
        | inr quote ↦ elim (Bool-cases (c == b'\n')) [
          | inl e ↦
              rw (backslash, quote, e)
                (rw (decode_escapes-pair _ _ _ _ refl later) (ap (λ b. ok (b ∷ cs)) (ground arith)))
          | inr e ↦ rw (backslash, quote, e) (decode_escapes-plain _ _ _ backslash later)
        ]
      ]
    ]

-- Content without a backslash decodes to itself.
decode_escapes_self : (raw : Bytes) → any is_backslash raw ≡ false → decode_escapes raw ≡ ok raw
unfolding decode_escapes any
decode_escapes_self [] plain = refl
decode_escapes_self (c ∷ []) plain = ground arith
decode_escapes_self (c ∷ d ∷ s) plain = ground (arith, decode_escapes_self (d ∷ s))

-- The scan finds a raw content, and decoding it is what the routine gives: the fast path, on which a
-- content without a backslash is copied, changes nothing.
pub parse_label_value-decode :
    (s : Bytes)
    → parse_label_value s
      ≡ (do (raw, rest) ← scan_value s; value ← decode_escapes raw; ok (value, rest))
unfolding parse_label_value
parse_label_value-decode s = elim (Result-cases (scan_value s)) [
  | inl (found, e) ↦ elim (Bool-cases (any is_backslash found.0)) [
    | inl some_escape ↦ rw (e, some_escape)
    | inr no_escape ↦ rw (e, no_escape, decode_escapes_self found.0 no_escape)
  ]
  | inr (m, e) ↦ rw e refl
]

-- A value printed with its backslashes, quotes and newlines escaped, and closed by a quote, is read
-- back as that value, whatever its bytes and whatever follows the quote.
pub parse_label_value-escape :
    (value rest : Bytes) → parse_label_value (escape value ++ b'"' ∷ rest) ≡ ok (value, rest)
parse_label_value-escape value rest = rw (
  parse_label_value-decode (escape value ++ b'"' ∷ rest),
  scan_value-escape value rest,
  decode_escapes-escape value,
)
