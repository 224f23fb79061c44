-- ===== src/Staleness/Gauge.antt =====
-- The gauge `tracked_series`, which the trackers of src/scrape.rs share.
use prometheus_scrape_rs.Base.{
  ℕ, suc, ◌+◌, ◌≤◌, ◌<◌, ◌^◌, Bool, List, [], ◌∷◌, Option, leb, length, retain, All, Bool-cases,
  inl, inr, ◌≡◌, refl, ap, arith,
}
use prometheus_scrape_rs.Base.Int.{ℤ, eqb_ℤ}
use prometheus_scrape_rs.Model.{TimeSeries}
use prometheus_scrape_rs.Scrape.Content.{ScrapeBody}
use prometheus_scrape_rs.Scrape.Once.{Externals, Target}
use prometheus_scrape_rs.Staleness.{
  Snappy, SeriesTracker, new_tracker, Metrics, stamped, tracked, identities, update_gauge,
  drop_tracker, advance, drain_all,
}
use prometheus_scrape_rs.Staleness.Hashes.{length_unique}

-- `g` counts what the tracker reported and what the others did.
pub record IsCounted (others : ℕ) (g : Metrics) (t : SeriesTracker) : Type 0 where
  pub gauge : g.tracked_series ≡ others + t.tracked_reported
  pub reported : t.tracked_reported ≡ length t.hashes
  pub fits : others + length t.hashes < 2 ^ 64

update_gauge-IsCounted :
    (others : ℕ) (g : Metrics) (t : SeriesTracker)
    → g.tracked_series ≡ others + t.tracked_reported
    → others + t.tracked_reported < 2 ^ 64
    → others + length t.hashes < 2 ^ 64
    → IsCounted others (update_gauge g t).0 (update_gauge g t).1
unfolding update_gauge
update_gauge-IsCounted others g t counted before after = record {
  gauge = elim (Bool-cases (leb t.tracked_reported (length t.hashes))) [
    | inl up ↦ rw up (ground (arith, counted, up, after))
    | inr down ↦ rw down (ground (arith, counted, down, before))
  ];
  reported = refl;
  fits = after;
}

length-identities : (batch : List TimeSeries) → length (identities batch) ≡ length batch
length-identities [] = refl
length-identities (s ∷ ss) = ap suc (length-identities ss)

length-retain :
    (p : TimeSeries → Bool) (batch : List TimeSeries) → length (retain p batch) ≤ length batch
unfolding retain
length-retain p [] = omega arith
length-retain p (s ∷ ss) = ground (arith, length-retain p ss)

length-tracked :
    (start_ms : ℤ) (batch : List TimeSeries) → length (tracked start_ms batch) ≤ length batch
unfolding tracked stamped
length-tracked start_ms batch =
    let kept = retain (λ s. eqb_ℤ s.sample.timestamp start_ms) batch in
    omega (
      arith,
      length_unique (identities kept),
      length-identities kept,
      length-retain (λ s. eqb_ℤ s.sample.timestamp start_ms) batch,
    )

-- What `scrape_loop` asks of a tracker, one after the other.
pub data Request : Type 0 where
  advance_by : List TimeSeries → Option ScrapeBody → ℤ → Request
  drain_at : ℤ → Request

-- The number of series of a request.
abbrev pub batch_length : Request → ℕ
batch_length (advance_by batch retained_body start_ms) = length batch
batch_length (drain_at timestamp) = 0

module _ (snappy : Snappy) (x : Externals) (target : Target x.engine.Regex) where
  unfoldable pub serve : Metrics × SeriesTracker → Request → Metrics × SeriesTracker
  unfolding advance drain_all
  serve (g, t) (advance_by batch retained_body start_ms) =
      let a = advance snappy x target g t batch retained_body start_ms in (a.metrics, a.tracker)
  serve (g, t) (drain_at timestamp) =
      let a = drain_all snappy x target g t timestamp in (a.metrics, a.tracker)

  -- Until the tracker is dropped.
  unfoldable pub live : Metrics × SeriesTracker → List Request → Metrics
  unfolding serve drop_tracker
  live (g, t) [] = drop_tracker g t
  live (g, t) (request ∷ requests) = live (serve (g, t) request) requests

  serve-IsCounted :
      (others : ℕ) (g : Metrics) (t : SeriesTracker) (request : Request)
      → others + batch_length request < 2 ^ 64
      → IsCounted others g t
      → IsCounted others (serve (g, t) request).0 (serve (g, t) request).1
  unfolding serve advance drain_all
  serve-IsCounted others g t (advance_by batch retained_body start_ms) small c =
      update_gauge-IsCounted others g _ c.gauge (omega (arith, c.fits, c.reported))
        (omega (arith, small, length-tracked start_ms batch))
  serve-IsCounted others g t (drain_at timestamp) small c =
      update_gauge-IsCounted others _ _ c.gauge (omega (arith, c.fits, c.reported))
        (omega (arith, small))

  live-restored :
      (others : ℕ) (g : Metrics) (t : SeriesTracker) (requests : List Request)
      → All (λ r. others + batch_length r < 2 ^ 64) requests
      → IsCounted others g t
      → (live (g, t) requests).tracked_series ≡ others
  unfolding live drop_tracker
  live-restored others g t [] small c = ground (arith, c.gauge, c.reported, c.fits)
  live-restored others g t (request ∷ requests) (first, small) c =
      live-restored others (serve (g, t) request).0 (serve (g, t) request).1 requests small
        (serve-IsCounted others g t request first c)

  -- Whatever a tracker goes through, when it is dropped the gauge is what it was before
  -- the tracker came, where the gauge and a batch together stay below 2 ^ 64.
  pub live-new_tracker :
      (g : Metrics) (requests : List Request)
      → g.tracked_series < 2 ^ 64
      → All (λ r. g.tracked_series + batch_length r < 2 ^ 64) requests
      → (live (g, new_tracker) requests).tracked_series ≡ g.tracked_series
  live-new_tracker g requests below small =
      live-restored g.tracked_series g new_tracker requests small
        (record { gauge = omega arith; reported = refl; fits = omega (arith, below) })
