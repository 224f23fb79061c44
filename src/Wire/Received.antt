-- ===== src/Wire/Received.antt =====
-- A receiver of the histogram message, by the numbers and types of types.proto: what it makes of
-- the fields that are there, from default values for those that are not.
pub mod Histograms
use mathlib.Core.Option
use prometheus_scrape_rs.Base.{
  ℕ, ◌||◌, List, [], ◌∷◌, ◌++◌, Bytes, Option, none, some, if◌then◌else◌, ◌==◌,
}
use prometheus_scrape_rs.Base.Int.{ℤ, pos}
use prometheus_scrape_rs.Model.{
  Float, is_zero, BucketSpan, Histogram, int, float, ResetHint, unknown, reset, no_reset, gauge,
}
use prometheus_scrape_rs.Wire.Zigzag.{from_zigzag, from_int64_bits}
use prometheus_scrape_rs.Wire.Message.{Field, varint, fixed64, bytes}
use prometheus_scrape_rs.Wire.Read.{◌>>=◌}
use prometheus_scrape_rs.Wire.Packed.{read_span, read_packed_deltas, read_packed_doubles}

-- A histogram with its timestamp, as it arrives.
pub record WireHistogram : Type 0 where
  pub histogram : Histogram
  pub timestamp : ℤ

abbrev pub on_histogram : (Histogram → Histogram) → WireHistogram → WireHistogram
on_histogram f w = record w { histogram = f w.histogram }

abbrev pub hint_of : ℕ → ResetHint
hint_of v = if v == 1 then reset else if v == 2 then no_reset else if v == 3 then gauge else unknown

unfoldable pub take_number : ℕ → ℕ → WireHistogram → WireHistogram
take_number n v w =
    if n == 1
    then on_histogram (λ h. record h { count = int v }) w
    else if n == 4
    then on_histogram (λ h. record h { schema = from_zigzag v }) w
    else if n == 6
    then on_histogram (λ h. record h { zero_count = int v }) w
    else if n == 14
    then on_histogram (λ h. record h { reset_hint = hint_of v }) w
    else if n == 15
    then record w { timestamp = from_int64_bits v }
    else w

unfoldable pub take_double : ℕ → Float → WireHistogram → WireHistogram
take_double n v w =
    if n == 2
    then on_histogram (λ h. record h { count = float v }) w
    else if n == 3
    then on_histogram (λ h. record h { sum = v }) w
    else if n == 5
    then on_histogram (λ h. record h { zero_threshold = v }) w
    else if n == 7
    then on_histogram (λ h. record h { zero_count = float v }) w
    else w

abbrev pub add_span : ℕ → BucketSpan → WireHistogram → WireHistogram
add_span n s = on_histogram (λ h.
    if n == 8
    then record h { negative_spans = h.negative_spans ++ s ∷ [] }
    else record h { positive_spans = h.positive_spans ++ s ∷ [] })

abbrev pub add_deltas : ℕ → List ℤ → WireHistogram → WireHistogram
add_deltas n ds = on_histogram (λ h.
    if n == 9
    then record h { negative_deltas = h.negative_deltas ++ ds }
    else record h { positive_deltas = h.positive_deltas ++ ds })

abbrev pub add_counts : ℕ → List Float → WireHistogram → WireHistogram
add_counts n vs = on_histogram (λ h.
    if n == 10
    then record h { negative_counts = h.negative_counts ++ vs }
    else record h { positive_counts = h.positive_counts ++ vs })

unfoldable pub take_bytes : ℕ → Bytes → WireHistogram → Option WireHistogram
take_bytes n b w =
    if n == 8 || n == 11
    then Option.map (λ s. add_span n s w) (read_span b)
    else if n == 9 || n == 12
    then Option.map (λ ds. add_deltas n ds w) (read_packed_deltas b)
    else if n == 10 || n == 13
    then Option.map (λ vs. add_counts n vs w) (read_packed_doubles b)
    else some w

unfoldable pub read_from : WireHistogram → List Field → Option WireHistogram
unfolding take_number take_double take_bytes
read_from w [] = some w
read_from w (varint n v ∷ fs) = read_from (take_number n v w) fs
read_from w (fixed64 n v ∷ fs) = read_from (take_double n v w) fs
read_from w (bytes n b ∷ fs) = do next ← take_bytes n b w; read_from next fs

abbrev pub nothing_read : WireHistogram
nothing_read = record {
  histogram = record {
    count = int 0;
    sum = 0;
    schema = pos 0;
    zero_threshold = 0;
    zero_count = int 0;
    negative_spans = [];
    negative_deltas = [];
    negative_counts = [];
    positive_spans = [];
    positive_deltas = [];
    positive_counts = [];
    reset_hint = unknown;
  };
  timestamp = pos 0;
}

unfoldable pub read_histogram : List Field → Option WireHistogram
unfolding read_from
read_histogram = read_from nothing_read

-- A double that is written only where it is not zero arrives without the sign of a zero.
abbrev pub arrived_double : Float → Float
arrived_double v = if is_zero v then 0 else v

abbrev pub arrived_histogram : Histogram → Histogram
arrived_histogram h = record h {
  sum = arrived_double h.sum;
  zero_threshold = arrived_double h.zero_threshold;
}
