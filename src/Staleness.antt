-- ===== src/Staleness.antt =====
-- `SeriesTracker` of src/scrape.rs: the retained body of the last scrape, the identities of its
-- series, and the staleness markers for those that vanish.
pub mod Hashes
pub mod Spec
pub mod Gauge
pub mod Loop
use mathlib.Core.Option
use prometheus_scrape_rs.Base.{
  ℕ, zero, suc, ◌+◌, ◌-◌, ◌^◌, ◌%◌, ◌==◌, Bool, true, false, not, ◌&&◌, ◌||◌, List, [], ◌∷◌, Option,
  none, some, map, Bytes, beq, leb, if◌then◌else◌, length, any, retain,
}
use prometheus_scrape_rs.Base.Int.{ℤ, eqb_ℤ}
use prometheus_scrape_rs.Base.Result.{Result, ok, err}
use prometheus_scrape_rs.Model.{Label, TimeSeries, stale_nan}
use prometheus_scrape_rs.Scrape.{finalize_series_labels}
use prometheus_scrape_rs.Scrape.Content.{BodyFormat, ScrapeBody}
use prometheus_scrape_rs.Scrape.Once.{Externals, Target, ScrapeError, parse_body, prepend}

-- `snap::raw::Encoder::compress_vec` and `snap::raw::Decoder::decompress_vec`.
pub record Snappy : Type 0 where
  pub compress : Bytes → Option Bytes
  pub decompress : Bytes → Option Bytes

pub record RetainedScrape : Type 0 where
  pub compressed : Bytes
  pub format : BodyFormat
  pub start_ms : ℤ

pub record SeriesTracker : Type 0 where
  pub retained : Option RetainedScrape
  pub hashes : List ℕ
  pub tracked_reported : ℕ

-- `SeriesTracker::default`
abbrev pub new_tracker : SeriesTracker
new_tracker = record { retained = none; hashes = []; tracked_reported = 0 }

-- The gauge and the counter that trackers share, 64 bits each.
pub record Metrics : Type 0 where
  pub tracked_series : ℕ
  pub staleness_markers_total : ℕ

-- `binary_search(..).is_ok()`, which holds of the items of a sorted list.
unfoldable pub has : ℕ → List ℕ → Bool
unfolding any
has hash hashes = any (λ h. h == hash) hashes

unfoldable pub insert_hash : ℕ → List ℕ → List ℕ
insert_hash h [] = h ∷ []
insert_hash h (k ∷ ks) = let rest = insert_hash h ks in if leb h k then h ∷ k ∷ ks else k ∷ rest

-- `sort_unstable`
unfoldable pub sort_hashes : List ℕ → List ℕ
unfolding insert_hash
sort_hashes [] = []
sort_hashes (h ∷ hs) = insert_hash h (sort_hashes hs)

-- The item in front of a run that it may be part of.
unfoldable pub push_new : ℕ → List ℕ → List ℕ
push_new h [] = h ∷ []
push_new h (k ∷ ks) = if h == k then k ∷ ks else h ∷ k ∷ ks

unfoldable pub dedup : List ℕ → List ℕ
unfolding push_new
dedup [] = []
dedup (h ∷ hs) = push_new h (dedup hs)

-- The series with the timestamp of the scrape.
unfoldable pub stamped : ℤ → List TimeSeries → List TimeSeries
unfolding retain
stamped start_ms batch = retain (λ s. eqb_ℤ s.sample.timestamp start_ms) batch

abbrev pub identities : List TimeSeries → List ℕ
identities batch = map (λ s. s.identity_hash) batch

unfoldable pub tracked : ℤ → List TimeSeries → List ℕ
unfolding stamped sort_hashes dedup
tracked start_ms batch = dedup (sort_hashes (identities (stamped start_ms batch)))

-- What was tracked and is not any more.
unfoldable pub vanished : List ℕ → List ℕ → List ℕ
unfolding retain has
vanished hashes current = retain (λ h. not (has h current)) hashes

unfoldable pub stale_series : List Label → ℤ → TimeSeries
stale_series labels timestamp = record {
  labels = labels;
  sample = record { value = stale_nan; timestamp = timestamp };
  identity_hash = 0;
  histogram = none;
}

-- `consumed[index] = true`, for the identity that stands at `index`.
abbrev pub consume : Option (List Label) → ℕ → List ℕ → List ℕ
consume none hash consumed = consumed
consume (some labels) hash consumed = hash ∷ consumed

module _ (x : Externals) (target : Target x.engine.Regex) where
  -- The final labels of a series that gets a marker.
  unfoldable pub marker_labels : ℤ → List ℕ → List ℕ → TimeSeries → Option (List Label)
  unfolding has finalize_series_labels
  marker_labels start_ms gone consumed s =
      if not (eqb_ℤ s.sample.timestamp start_ms)
      then none
      else if not (has s.identity_hash gone)
      then none
      else if has s.identity_hash consumed
      then none
      else finalize_series_labels x.engine s.labels target.naming

  -- The loop of `rederive_markers`.
  unfoldable pub mark : ℤ → ℤ → List ℕ → List ℕ → List TimeSeries → List TimeSeries
  unfolding marker_labels stale_series
  mark start_ms timestamp gone consumed [] = []
  mark start_ms timestamp gone consumed (s ∷ ss) =
      let found = marker_labels start_ms gone consumed s in
      prepend (Option.map (λ labels. stale_series labels timestamp) found)
        (mark start_ms timestamp gone (consume found s.identity_hash consumed) ss)

  abbrev pub mark_parsed : ℤ → ℤ → List ℕ → Result ScrapeError (List TimeSeries) → List TimeSeries
  mark_parsed start_ms timestamp gone (ok parsed) = mark start_ms timestamp gone [] parsed
  mark_parsed start_ms timestamp gone (err e) = []

  abbrev pub mark_body : BodyFormat → ℤ → ℤ → List ℕ → Option Bytes → List TimeSeries
  mark_body format start_ms timestamp gone none = []
  mark_body format start_ms timestamp gone (some body) =
      mark_parsed start_ms timestamp gone (parse_body x target body format start_ms)

  module _ (snappy : Snappy) where
    unfoldable pub rederive_markers : Option RetainedScrape → List ℕ → ℤ → List TimeSeries
    unfolding mark parse_body
    rederive_markers retained [] timestamp = []
    rederive_markers none (h ∷ hs) timestamp = []
    rederive_markers (some r) (h ∷ hs) timestamp =
        mark_body r.format r.start_ms timestamp (h ∷ hs) (snappy.decompress r.compressed)

-- `METRICS.tracked_series`: `fetch_add` and `fetch_sub` wrap around.
unfoldable pub update_gauge : Metrics → SeriesTracker → Metrics × SeriesTracker
update_gauge m t =
    let now = length t.hashes in
    (
      record m {
        tracked_series =
            if leb t.tracked_reported now
            then (m.tracked_series + (now - t.tracked_reported)) % 2 ^ 64
            else (m.tracked_series + 2 ^ 64 - (t.tracked_reported - now)) % 2 ^ 64;
      },
      record t { tracked_reported = now },
    )

-- `Drop`
unfoldable pub drop_tracker : Metrics → SeriesTracker → Metrics
drop_tracker m t = record m {
  tracked_series = (m.tracked_series + 2 ^ 64 - t.tracked_reported) % 2 ^ 64;
}

-- What a round gives: the markers, and the state after it.
pub record Advanced : Type 0 where
  pub markers : List TimeSeries
  pub tracker : SeriesTracker
  pub metrics : Metrics

abbrev pub compressed_scrape : BodyFormat → ℤ → Option Bytes → Option RetainedScrape
compressed_scrape format start_ms none = none
compressed_scrape format start_ms (some compressed) =
    some (record { compressed = compressed; format = format; start_ms = start_ms })

abbrev pub is_none {ℓ} : {A : Type ℓ} → Option A → Bool
is_none none = true
is_none (some a) = false

module _ (snappy : Snappy) where
  -- The body that is kept, which is the old one while the identities stay the same.
  unfoldable pub retain_body :
      SeriesTracker → List ℕ → Option ScrapeBody → ℤ → Option RetainedScrape
  unfolding beq
  retain_body t current none start_ms = none
  retain_body t current (some body) start_ms =
      if is_none t.retained || not (beq t.hashes current)
      then compressed_scrape body.format start_ms (snappy.compress body.bytes)
      else t.retained

  module _ (x : Externals) (target : Target x.engine.Regex) where
    unfoldable pub advance :
        Metrics → SeriesTracker → List TimeSeries → Option ScrapeBody → ℤ → Advanced
    unfolding tracked vanished rederive_markers retain_body update_gauge
    advance m t batch retained_body start_ms =
        let current = tracked start_ms batch in
        let updated = update_gauge m (record t {
          retained = retain_body t current retained_body start_ms;
          hashes = current;
        }) in
        record {
          markers =
              rederive_markers x target snappy t.retained (vanished t.hashes current) start_ms;
          tracker = updated.1;
          metrics = updated.0;
        }

    unfoldable pub drain_all : Metrics → SeriesTracker → ℤ → Advanced
    unfolding rederive_markers update_gauge
    drain_all m t timestamp =
        let markers = rederive_markers x target snappy t.retained t.hashes timestamp in
        let counted = record m {
          staleness_markers_total = (m.staleness_markers_total + length markers) % 2 ^ 64;
        } in
        let updated = update_gauge counted (record t { retained = none; hashes = [] }) in
        record { markers = markers; tracker = updated.1; metrics = updated.0 }
