-- ===== src/Staleness/Spec/Rounds.antt =====
-- The rounds of `scrape_loop` of src/scrape.rs, as far as the tracker goes.
use mathlib.Core.List.{Mem, mem-cons_self, mem-cons_of_mem, mem-append_right}
use mathlib.Core.Path.{subst}
use prometheus_scrape_rs.Base.{
  ltb, ℕ, ◌<◌, ◌^◌, Bool, true, not, ◌&&◌, ◌||◌, List, [], ◌∷◌, ◌++◌, Option, none, some, Bytes,
  beq, beq_iff, length, any, retain, All, All-map, All-retain, Bool-cases, inl, inr, ◌≡◌, refl, ap,
  ◌∙◌, arith,
}
use prometheus_scrape_rs.Base.Int.{ℤ, eqb_ℤ}
use prometheus_scrape_rs.Base.Result.{Result, ok, err, Ensures, Anything}
use prometheus_scrape_rs.Model.{Float, TimeSeries}
use prometheus_scrape_rs.Scrape.Content.{ScrapeBody, FetchError}
use prometheus_scrape_rs.Scrape.Once.{
  Externals, Target, ScrapeOutcome, ScrapeError, scrape_once, tally_fetched, tally_parsed,
  tally_series, parse_body,
}
use prometheus_scrape_rs.Staleness.{
  Snappy, SeriesTracker, new_tracker, Metrics, has, stamped, tracked, vanished, advance, drain_all,
  is_none,
}
use prometheus_scrape_rs.Staleness.Spec.{Remembered, recall_sent, remember, Represents}
use prometheus_scrape_rs.Staleness.Spec.Refines.{
  remembered_round, advance-Represents, rederive_markers-recall,
}
use prometheus_scrape_rs.Staleness.Spec.Markers.{
  IsConsistent, IsSeen, IsMarkerOf, recall-IsMarkerOf, recall_sent-length, IsMarked,
  recall_sent-IsMarked,
}

-- The items of a list are in what it is the front of.
All-in_front : (hs ks : List TimeSeries) → All (λ s. Mem s (hs ++ ks)) hs
All-in_front [] ks = tt
All-in_front (h ∷ hs) ks = (
  mem-cons_self,
  All-map (λ s. Mem s (hs ++ ks)) (λ s. Mem s (h ∷ hs ++ ks)) hs (λ s m. mem-cons_of_mem h m)
      (All-in_front hs ks),
)

abbrev IsIn : List TimeSeries → Option (List TimeSeries) → Type 0
IsIn history none = Unit {0}
IsIn history (some sent) = All (λ s. Mem s history) sent

vanished_all : (hashes : List ℕ) → vanished hashes [] ≡ hashes
unfolding vanished retain has any
vanished_all [] = refl
vanished_all (h ∷ hs) = ap (◌∷◌ h) (vanished_all hs)

module _ (x : Externals) (target : Target x.engine.Regex) (snappy : Snappy) where
  abbrev pub outcome_of : ℤ → Float → Result FetchError ScrapeBody → ScrapeOutcome
  outcome_of start_ms duration fetched = scrape_once x target start_ms duration fetched

  abbrev pub tracker_after : Metrics → SeriesTracker → ScrapeOutcome → SeriesTracker
  tracker_after g t o = (advance snappy x target g t o.series o.retained_body o.start_ms).tracker

  abbrev pub markers_of : Metrics → SeriesTracker → ScrapeOutcome → List TimeSeries
  markers_of g t o = (advance snappy x target g t o.series o.retained_body o.start_ms).markers

  -- The trackers that rounds lead to, each with all the series that those rounds sent.
  pub data IsReached : SeriesTracker → List TimeSeries → Type 0 where
    started : IsReached new_tracker []
    scraped :
        (g : Metrics) (t : SeriesTracker) (history : List TimeSeries) (start_ms : ℤ)
        (duration : Float) (fetched : Result FetchError ScrapeBody)
        → IsReached t history
        → Ensures Anything (λ body. length body.bytes < 2 ^ 32) fetched
        → IsReached
            (tracker_after g t (outcome_of start_ms duration fetched))
            ((outcome_of start_ms duration fetched).series ++ history)

  -- Without a body to keep, a target whose series are tracked has sent nothing.
  scrape_once-kept :
      target.track_staleness ≡ true
      → (start_ms : ℤ) (duration : Float) (fetched : Result FetchError ScrapeBody)
      → (outcome_of start_ms duration fetched).retained_body ≡ none
      → (outcome_of start_ms duration fetched).series ≡ []
  unfolding scrape_once tally_fetched tally_parsed tally_series
  scrape_once-kept on start_ms duration (err e) = λ same. refl
  scrape_once-kept on start_ms duration (ok body) =
      parsed (parse_body x target body.bytes body.format start_ms)
    where
      parsed :
          (r : Result ScrapeError (List TimeSeries))
          → (tally_parsed x target body r).retained_body ≡ none
          → (tally_parsed x target body r).batch ≡ []
      parsed (err e) = λ same. refl
      parsed (ok r) =
          elim (Bool-cases (ltb 0 target.sample_limit && ltb target.sample_limit (length r))) [
            | inl over ↦ rw over (λ same. refl)
            | inr fits ↦ rw (fits, on) (λ same. ground (arith, same))
          ]

  record Holds (t : SeriesTracker) (history : List TimeSeries) : Type 0 where
    remembered : Remembered
    represented : Represents x target snappy t remembered
    consistent : IsConsistent remembered
    sent_before : IsIn history remembered.sent

  remember-IsSeen :
      (m : Remembered) (batch : List TimeSeries) (body : Option ScrapeBody) (start_ms : ℤ)
      → IsConsistent m
      → (body ≡ none → batch ≡ [])
      → IsSeen (remember m batch body start_ms) (tracked start_ms batch)
  unfolding remember tracked
  remember-IsSeen m batch none start_ms seen nothing = rw (nothing refl) refl
  remember-IsSeen m batch (some body) start_ms seen nothing =
      let fresh : Bool = is_none m.sent || not (beq m.seen (tracked start_ms batch)) in
      elim (Bool-cases fresh) [
        | inl new ↦ rw new refl
        | inr old ↦ rw old (
            subst (IsSeen m.sent)
              ((beq_iff m.seen (tracked start_ms batch)).0 (ground (arith, old))) seen)
      ]

  remember-IsIn :
      (m : Remembered) (batch history : List TimeSeries) (body : Option ScrapeBody) (start_ms : ℤ)
      → IsIn history m.sent
      → IsIn (batch ++ history) (remember m batch body start_ms)
  unfolding remember stamped
  remember-IsIn m batch history none start_ms before = tt
  remember-IsIn m batch history (some body) start_ms before =
      let fresh : Bool = is_none m.sent || not (beq m.seen (tracked start_ms batch)) in
      elim (Bool-cases fresh) [
        | inl new ↦ rw new (
            All-retain (λ s. Mem s (batch ++ history)) (λ s. eqb_ℤ s.sample.timestamp start_ms)
              batch (All-in_front batch history))
        | inr old ↦ rw old (later m.sent before)
      ]
    where
      later : (sent : Option (List TimeSeries)) → IsIn history sent → IsIn (batch ++ history) sent
      later none before = tt
      later (some sent) before =
          All-map (λ s. Mem s history) (λ s. Mem s (batch ++ history)) sent
            (λ s k. mem-append_right batch k) before

  -- As many markers as series vanished; each of these has one, with the labels of a series of its identity
  -- that was sent before; and there is no other marker.
  pub record MarksVanished (t : SeriesTracker) (history : List TimeSeries) (o : ScrapeOutcome)
      (markers : List TimeSeries) : Type 0 where
    pub as_many : length markers ≡ length (vanished t.hashes (tracked o.start_ms o.series))
    pub each :
        (h : ℕ)
        → has h (vanished t.hashes (tracked o.start_ms o.series)) ≡ true
        → IsMarked (λ s. Mem s history) o.start_ms markers h
    pub no_other :
        All
          (IsMarkerOf
            (λ s. Mem s history)
            o.start_ms
            (vanished t.hashes (tracked o.start_ms o.series)))
          markers

  -- The same when a target is removed: all that is tracked is marked.
  pub record MarksAll (t : SeriesTracker) (history : List TimeSeries) (timestamp : ℤ)
      (markers : List TimeSeries) : Type 0 where
    pub as_many : length markers ≡ length t.hashes
    pub each : (h : ℕ) → has h t.hashes ≡ true → IsMarked (λ s. Mem s history) timestamp markers h
    pub no_other : All (IsMarkerOf (λ s. Mem s history) timestamp t.hashes) markers

  -- All that `IsIn` says.
  in_history :
      (history : List TimeSeries) (sent : Option (List TimeSeries))
      → IsIn history sent
      → (s : List TimeSeries) → sent ≡ some s
      → All (λ s. Mem s history) s
  in_history history sent before s same = subst (IsIn history) same before

  recall_sent-IsMarkerOf :
      (history : List TimeSeries) (sent : Option (List TimeSeries)) (timestamp : ℤ) (gone : List ℕ)
      → IsIn history sent
      → All (IsMarkerOf (λ s. Mem s history) timestamp gone) (recall_sent sent timestamp gone)
  recall_sent-IsMarkerOf history none timestamp gone before = tt
  recall_sent-IsMarkerOf history (some sent) timestamp gone before =
      recall-IsMarkerOf (λ s. Mem s history) timestamp gone [] sent before

  module _ (on : target.track_staleness ≡ true)
      (restores : (body : Bytes)
        → length body < 2 ^ 32
        → (c : Bytes) × (snappy.compress body ≡ some c) × (snappy.decompress c ≡ some body)) where
    reached-Holds :
        {t : SeriesTracker} {history : List TimeSeries} → IsReached t history → Holds t history
    reached-Holds started = record {
      remembered = record { sent = none; seen = [] };
      represented = record { retained = tt; seen = refl; reported = refl };
      consistent = refl;
      sent_before = tt;
    }
    reached-Holds (scraped g t history start_ms duration fetched r short) =
        let before = reached-Holds r in
        let o = outcome_of start_ms duration fetched in
        let round =
          advance-Represents x target snappy restores g t before.remembered start_ms duration
            fetched before.represented short in
        record {
          remembered = remembered_round x target before.remembered o;
          represented = round.next;
          consistent =
              remember-IsSeen before.remembered o.series o.retained_body o.start_ms
                before.consistent (scrape_once-kept on start_ms duration fetched);
          sent_before =
              remember-IsIn before.remembered o.series history o.retained_body o.start_ms
                before.sent_before;
        }

    -- After any number of rounds of a target whose series are tracked, with a compression that
    -- restores what it is given, a round marks every series that was sent before and vanished, with labels
    -- that were sent, and nothing else.
    pub advance-MarksVanished :
        (t : SeriesTracker) (history : List TimeSeries) (g : Metrics) (start_ms : ℤ)
        (duration : Float) (fetched : Result FetchError ScrapeBody)
        → IsReached t history
        → Ensures Anything (λ body. length body.bytes < 2 ^ 32) fetched
        → MarksVanished t history
            (outcome_of start_ms duration fetched)
            (markers_of g t (outcome_of start_ms duration fetched))
    advance-MarksVanished t history g start_ms duration fetched r short =
        let before = reached-Holds r in
        let o = outcome_of start_ms duration fetched in
        let round =
          advance-Represents x target snappy restores g t before.remembered start_ms duration
            fetched before.represented short in
        let current = tracked o.start_ms o.series in
        let m = before.remembered in
        record {
          as_many =
              rw (round.markers, before.represented.seen)
                (recall_sent-length m o.start_ms current before.consistent);
          each =
              rw (round.markers, before.represented.seen)
                (λ h lost.
                  recall_sent-IsMarked (λ s. Mem s history) m.sent m.seen o.start_ms current h
                    before.consistent (in_history history m.sent before.sent_before) lost);
          no_other =
              rw (round.markers, before.represented.seen)
                (recall_sent-IsMarkerOf history m.sent o.start_ms (vanished m.seen current)
                  before.sent_before);
        }

    pub drain_all-MarksAll :
        (t : SeriesTracker) (history : List TimeSeries) (g : Metrics) (timestamp : ℤ)
        → IsReached t history
        → MarksAll t history timestamp (drain_all snappy x target g t timestamp).markers
    unfolding drain_all
    drain_all-MarksAll t history g timestamp r =
        let before = reached-Holds r in
        let m = before.remembered in
        let same : (drain_all snappy x target g t timestamp).markers
            ≡ recall_sent m.sent timestamp m.seen =
          rw before.represented.seen (
            rederive_markers-recall x target snappy t.retained m.sent before.represented.retained
              m.seen timestamp) in
        record {
          as_many =
              rw (same, before.represented.seen)
                (subst (λ gone. length (recall_sent m.sent timestamp gone) ≡ length gone)
                  (vanished_all m.seen) (recall_sent-length m timestamp [] before.consistent));
          each =
              rw (same, before.represented.seen)
                (λ h lost.
                  subst
                    (λ gone.
                      IsMarked (λ s. Mem s history) timestamp (recall_sent m.sent timestamp gone) h)
                    (vanished_all m.seen)
                    (recall_sent-IsMarked (λ s. Mem s history) m.sent m.seen timestamp [] h
                      before.consistent (in_history history m.sent before.sent_before)
                      (ap (has h) (vanished_all m.seen) ∙ lost)));
          no_other =
              rw (same, before.represented.seen)
                (recall_sent-IsMarkerOf history m.sent timestamp m.seen before.sent_before);
        }
