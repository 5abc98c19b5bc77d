-- ===== src/Frame/Wire.antt =====
-- proto/powerhistory/types.go: the frame as it is decoded, with Go's int64 and float64.
use blox_os.Base.{ℕ, ◌+◌, List, Option, Bool, true, false, ltb}
use blox_os.Base.Text.{Text, codes}

-- An int64: negsuc n is -(n + 1).
pub data ℤ : Type 0 where
  pos : ℕ → ℤ
  negsuc : ℕ → ℤ

abbrev pub ltb_ℤ : ℤ → ℤ → Bool
ltb_ℤ (pos a) (pos b) = ltb a b
ltb_ℤ (pos a) (negsuc b) = false
ltb_ℤ (negsuc a) (pos b) = true
ltb_ℤ (negsuc a) (negsuc b) = ltb b a

abbrev pub to_nat : ℤ → ℕ
to_nat (pos a) = a
to_nat (negsuc a) = 0

-- A float64. A finite one is a multiple of the smallest one, 2^-1074, and `below 0` is the negative zero.
pub data Float : Type 0 where
  nan infinity negative_infinity : Float
  above below : ℕ → Float

-- Go's order on floats: NaN is in no order, and the zeros are equal.
abbrev pub ltb_Float : Float → Float → Bool
ltb_Float nan y = false
ltb_Float x nan = false
ltb_Float infinity y = false
ltb_Float x negative_infinity = false
ltb_Float negative_infinity y = true
ltb_Float x infinity = true
ltb_Float (above a) (above b) = ltb a b
ltb_Float (above a) (below b) = false
ltb_Float (below a) (above b) = ltb 0 (a + b)
ltb_Float (below a) (below b) = ltb b a

-- math.IsNaN and math.IsInf.
abbrev pub is_finite : Float → Bool
is_finite (above a) = true
is_finite (below a) = true
is_finite _ = false

pub record Stats : Type 0 where
  pub mean_watts : Option Float
  pub peak_watts : Option Float
  pub samples : ℤ

pub record Sensor : Type 0 where
  pub id : Text
  pub stats : Stats

pub record DomainSource : Type 0 where
  pub domain : Text
  pub source : Text

pub record WireBucket : Type 0 where
  pub seq : ℕ
  pub start_unix_ms : ℤ
  pub end_unix_ms : ℤ
  pub expected_samples : ℤ
  pub gpus : List Sensor
  pub gpu_total : Option Stats
  pub cpu : Option Stats
  pub system : Option Stats
  pub dram : Option Stats
  pub sources : List DomainSource
  pub gap_before : Bool

pub record WireBatch : Type 0 where
  pub kind : Text
  pub stream_id : Text
  pub retained_from : ℕ
  pub buckets : List WireBucket
  pub degraded : Bool

abbrev pub batch_type : Text
batch_type = codes "power_history"

abbrev pub domain_system : Text
domain_system = codes "system"

abbrev pub domain_cpu : Text
domain_cpu = codes "cpu"

abbrev pub domain_dram : Text
domain_dram = codes "dram"

abbrev pub max_batch_records : ℕ
max_batch_records = 32

abbrev pub max_sensors : ℕ
max_sensors = 16

abbrev pub max_frame_bytes : ℕ
max_frame_bytes = 262144

abbrev pub max_future_skew_ms : ℕ
max_future_skew_ms = 900000

abbrev pub max_domain_sources : ℕ
max_domain_sources = 8

abbrev pub max_source_len : ℕ
max_source_len = 64
