-- ===== src/Scrape/Content/Bounds.antt =====
-- `fetch` of src/scrape.rs: what it reads, and how much.
use mathlib.Core.Option
use prometheus_scrape_rs.Base.{
  ℕ, ◌+◌, ◌≤◌, ◌<◌, true, ◌&&◌, List, [], ◌∷◌, ◌++◌, Option, none, some, Bytes, ltb, leb, length,
  length-append, append_assoc, append-nil, ◌≡◌, refl, sym, ap, ◌∙◌, arith, Bool-cases, inl, inr,
  ◌⊎◌,
}
use prometheus_scrape_rs.Base.Result.{
  Result, ok, err, ◌>>=◌, ◌>>◌, refuse, Ensures, Anything, bind-Ensures, refuse-Ensures,
  map-Ensures,
}
use prometheus_scrape_rs.Scrape.Content.{
  BodyFormat, ScrapeBody, FetchError, announced_too_long, too_long, is_over, check_announced,
  read_chunks, read_body, from_content_type, Response, fetch,
}

-- All that comes in, unless a read fails.
abbrev pub received : List (Option Bytes) → Option Bytes
received [] = some []
received (none ∷ chunks) = none
received (some chunk ∷ chunks) = Option.map (λ later. chunk ++ later) (received chunks)

-- No more than the limit, if there is one.
abbrev pub IsWithin : ℕ → Bytes → Type 0
IsWithin limit body = (limit ≡ 0) ⊎ (length body ≤ limit)

refuse-step :
    (limit : ℕ) (body chunk : Bytes) (r : Result FetchError Bytes) (P : Bytes → Type 0)
    → (IsWithin limit (body ++ chunk) → Ensures Anything P r)
    → Ensures Anything P (refuse (is_over limit (length body + length chunk)) too_long >> r)
refuse-step limit body chunk r P k =
    elim (Bool-cases (is_over limit (length body + length chunk))) [
      | inl over ↦ rw over tt
      | inr fits ↦ rw fits (
          k (elim (Bool-cases (ltb 0 limit)) [
            | inl on ↦ inr (ground (arith, length-append body chunk))
            | inr off ↦ inl (ground arith)
          ]))
    ]

-- `body` in front of what is received.
abbrev behind : Bytes → List (Option Bytes) → Option Bytes
behind body chunks = Option.map (λ later. body ++ later) (received chunks)

behind-chunk :
    (body chunk : Bytes) (chunks : List (Option Bytes))
    → behind (body ++ chunk) chunks ≡ behind body (some chunk ∷ chunks)
behind-chunk body chunk chunks = go (received chunks)
  where
    go :
        (r : Option Bytes)
        → Option.map (λ later. (body ++ chunk) ++ later) r
          ≡ Option.map (λ later. body ++ later) (Option.map (λ later. chunk ++ later) r)
    go none = refl
    go (some later) = ap some (append_assoc body chunk later)

read_chunks-received :
    (limit : ℕ) (body : Bytes) (chunks : List (Option Bytes))
    → IsWithin limit body
    → Ensures Anything
        (λ out. IsWithin limit out × (behind body chunks ≡ some out))
        (read_chunks limit body chunks)
unfolding read_chunks
read_chunks-received limit body [] within = (within, ap some (append-nil body))
read_chunks-received limit body (none ∷ chunks) within = tt
read_chunks-received limit body (some chunk ∷ chunks) within =
    refuse-step limit body chunk (read_chunks limit (body ++ chunk) chunks) _ (λ fits.
      map-Ensures Anything (λ out. IsWithin limit out × (behind (body ++ chunk) chunks ≡ some out))
        _ (read_chunks limit (body ++ chunk) chunks)
        (λ out (w, same). (w, sym (behind-chunk body chunk chunks) ∙ same))
        (read_chunks-received limit (body ++ chunk) chunks fits))

-- What a fetch promises of a body.
pub record IsFetched (limit : ℕ) (response : Response) (body : ScrapeBody) : Type 0 where
  pub within : IsWithin limit body.bytes
  pub whole : received response.chunks ≡ some body.bytes
  pub success : 200 ≤ response.status
  pub success_end : response.status < 300
  pub format : from_content_type response.content_type ≡ ok body.format

-- A fetch that succeeds has a status from 200 to 299, its format is the one that `from_content_type` gives
-- (text for a type that is missing or unknown), and it gives every byte that came in, in order, which are
-- no more than the limit, if there is one.
pub fetch-IsFetched :
    (limit : ℕ) (response : Response)
    → Ensures Anything (IsFetched limit response) (fetch limit (some response))
unfolding fetch read_body
fetch-IsFetched limit response =
    elim (Bool-cases (leb 200 response.status && ltb response.status 300)) [
      | inr bad ↦ rw bad tt
      | inl good ↦ rw good (formatted good (from_content_type response.content_type) refl)
    ]
  where
    read : BodyFormat → Result FetchError ScrapeBody
    read format =
        (check_announced limit response.announced >> read_chunks limit [] response.chunks)
        >>= (λ bytes. ok (record { bytes = bytes; format = format }))

    complete :
        (format : BodyFormat)
        → leb 200 response.status && ltb response.status 300 ≡ true
        → from_content_type response.content_type ≡ ok format
        → Ensures Anything (IsFetched limit response) (read format)
    complete format good same =
        bind-Ensures Anything (λ out. IsWithin limit out × (received response.chunks ≡ some out))
          (IsFetched limit response)
          (check_announced limit response.announced >> read_chunks limit [] response.chunks) _
          (bind-Ensures Anything Anything
            (λ out. IsWithin limit out × (received response.chunks ≡ some out))
            (check_announced limit response.announced) (λ _. read_chunks limit [] response.chunks)
            (announced_ok response.announced)
            (λ _ _.
              map-Ensures Anything
                (λ out. IsWithin limit out × (behind [] response.chunks ≡ some out)) _
                (read_chunks limit [] response.chunks)
                (λ out (w, all). (w, sym (behind_nothing (received response.chunks)) ∙ all))
                (read_chunks-received limit [] response.chunks (inr (omega arith)))))
          (λ bytes (w, all). record {
            within = w;
            whole = all;
            success = ground (arith, good);
            success_end = ground (arith, good);
            format = same;
          })
      where
        announced_ok :
            (announced : Option ℕ) → Ensures Anything Anything (check_announced limit announced)
        announced_ok none = tt
        announced_ok (some n) = refuse-Ensures Anything (is_over limit n) (announced_too_long n) tt

        behind_nothing : (r : Option Bytes) → Option.map (λ later. [] ++ later) r ≡ r
        behind_nothing none = refl
        behind_nothing (some later) = refl

    formatted :
        leb 200 response.status && ltb response.status 300 ≡ true
        → (r : Result FetchError BodyFormat) → from_content_type response.content_type ≡ r
        → Ensures Anything (IsFetched limit response) (r >>= read)
    formatted good (err e) same = tt
    formatted good (ok format) same = complete format good same
