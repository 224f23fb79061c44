-- ===== src/Scrape/Content.antt =====
-- `BodyFormat::from_content_type`, `read_body` and `fetch` of src/scrape.rs: from an HTTP response to
-- a body and its format.
pub mod Bounds
use prometheus_scrape_rs.Base.{
  ℕ, zero, suc, ◌+◌, Bool, true, false, not, ◌&&◌, ◌||◌, List, [], ◌∷◌, ◌++◌, Option, none, some,
  map, Bytes, ltb, leb, beq, if◌then◌else◌, length, text, ◌==◌,
}
use prometheus_scrape_rs.Base.Result.{Result, ok, err, ◌>>=◌, ◌>>◌, refuse}

pub data BodyFormat : Type 0 where
  text_format protobuf_format : BodyFormat

pub record ScrapeBody : Type 0 where
  pub bytes : Bytes
  pub format : BodyFormat

-- What ends a fetch.
pub data FetchError : Type 0 where
  bad_status : ℕ → FetchError
  unsupported_message_type : Bytes → FetchError
  unsupported_encoding : Bytes → FetchError
  announced_too_long : ℕ → FetchError
  too_long : FetchError
  interrupted : FetchError

-- `split(separator)`: the first part, and those behind it.
unfoldable pub split_first : ℕ → Bytes → Bytes × List Bytes
split_first separator [] = ([], [])
split_first separator (c ∷ cs) =
    let rest = split_first separator cs in
    if c == separator then ([], rest.0 ∷ rest.1) else (c ∷ rest.0, rest.1)

-- `split_once(separator)`
unfoldable pub split_once : ℕ → Bytes → Option (Bytes × Bytes)
split_once separator [] = none
split_once separator (c ∷ cs) = elim (c == separator) [
  | true ↦ some ([], cs)
  | false ↦ elim (split_once separator cs) [
    | none ↦ none
    | some (before, after) ↦ some (c ∷ before, after)
  ]
]

-- `trim_start_matches`, `trim_end_matches` and both, for a set of characters.
unfoldable pub trim_start : (ℕ → Bool) → Bytes → Bytes
trim_start drops [] = []
trim_start drops (c ∷ cs) = let rest = trim_start drops cs in if drops c then rest else c ∷ cs

abbrev keep_unless_last : (ℕ → Bool) → ℕ → Bytes → Bytes
keep_unless_last drops c [] = if drops c then [] else c ∷ []
keep_unless_last drops c (d ∷ ds) = c ∷ d ∷ ds

unfoldable pub trim_end : (ℕ → Bool) → Bytes → Bytes
trim_end drops [] = []
trim_end drops (c ∷ cs) = keep_unless_last drops c (trim_end drops cs)

unfoldable pub trim_matches : (ℕ → Bool) → Bytes → Bytes
unfolding trim_start trim_end
trim_matches drops s = trim_end drops (trim_start drops s)

-- `str::trim` on the characters that `HeaderValue::to_str` lets through: a blank or a tab.
abbrev pub is_blank : ℕ → Bool
is_blank c = c == b' ' || c == b'\t'

abbrev pub is_quote : ℕ → Bool
is_quote c = c == b'"'

-- `to_lowercase` on those characters.
abbrev pub lower : ℕ → ℕ
lower c = if leb b'A' c && leb c b'Z' then c + 32 else c

abbrev pub media_type : Bytes
media_type = text "application/vnd.google.protobuf"

abbrev pub message_type : Bytes
message_type = text "io.prometheus.client.MetricFamily"

-- `proto` and `encoding`.
pub record Parameters : Type 0 where
  pub proto : Bytes
  pub encoding : Bytes

unfoldable pub set_parameter : Parameters → Option (Bytes × Bytes) → Parameters
unfolding trim_matches beq
set_parameter p none = p
set_parameter p (some (key, value)) =
    let name = map lower (trim_matches is_blank key) in
    let unquoted = trim_matches is_quote (trim_matches is_blank value) in
    if beq name (text "proto")
    then record p { proto = unquoted }
    else if beq name (text "encoding")
    then record p { encoding = unquoted }
    else p

unfoldable pub set_parameters : Parameters → List Bytes → Parameters
unfolding set_parameter split_once
set_parameters p [] = p
set_parameters p (parameter ∷ parameters) =
    set_parameters (set_parameter p (split_once b'=' parameter)) parameters

unfoldable pub protobuf_parameters : Parameters → Result FetchError BodyFormat
unfolding beq
protobuf_parameters p = do
  refuse (not (beq p.proto message_type)) (unsupported_message_type p.proto)
  refuse (not (beq p.encoding (text "delimited"))) (unsupported_encoding p.encoding)
  ok protobuf_format

unfoldable pub from_content_type : Option Bytes → Result FetchError BodyFormat
unfolding split_first trim_matches set_parameters protobuf_parameters beq
from_content_type none = ok text_format
from_content_type (some content_type) =
    let parts = split_first b';' content_type in
    if not (beq (map lower (trim_matches is_blank parts.0)) media_type)
    then ok text_format
    else protobuf_parameters (set_parameters (record { proto = []; encoding = [] }) parts.1)

-- What `reqwest` gives of a response. A chunk that is `none` is a read that failed.
pub record Response : Type 0 where
  pub status : ℕ
  pub content_type : Option Bytes
  pub announced : Option ℕ
  pub chunks : List (Option Bytes)

abbrev pub is_over : ℕ → ℕ → Bool
is_over limit n = ltb 0 limit && ltb limit n

-- The check of the announced length.
abbrev pub check_announced : ℕ → Option ℕ → Result FetchError (Unit {0})
check_announced limit none = ok tt
check_announced limit (some n) = refuse (is_over limit n) (announced_too_long n)

-- `while let Some(chunk) = response.chunk().await? { .. }`
unfoldable pub read_chunks : ℕ → Bytes → List (Option Bytes) → Result FetchError Bytes
read_chunks limit body [] = ok body
read_chunks limit body (none ∷ chunks) = err interrupted
read_chunks limit body (some chunk ∷ chunks) =
    refuse (is_over limit (length body + length chunk)) too_long
    >> read_chunks limit (body ++ chunk) chunks

unfoldable pub read_body : ℕ → Response → Result FetchError Bytes
unfolding read_chunks
read_body limit response =
    check_announced limit response.announced >> read_chunks limit [] response.chunks

-- A request that was not answered is `none`.
unfoldable pub fetch : ℕ → Option Response → Result FetchError ScrapeBody
unfolding from_content_type read_body
fetch limit none = err interrupted
fetch limit (some response) = do
  refuse (not (leb 200 response.status && ltb response.status 300)) (bad_status response.status)
  format ← from_content_type response.content_type
  bytes ← read_body limit response
  ok (record { bytes = bytes; format = format })
