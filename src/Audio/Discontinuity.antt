-- ===== src/Audio/Discontinuity.antt =====
-- crates/speakeasy-domain/src/audio.rs: the set of discontinuities, a flag for each of its bits.
use speakeasy_granite_rust_m.Base.{
  ℕ, ◌+◌, ◌/◌, ◌%◌, ◌≡◌, Bool, true, false, not, ◌&&◌, ◌||◌, ◌==◌, if◌then◌else◌, arith,
}

pub record AudioDiscontinuity : Type 0 where
  pub has_device_report : Bool
  pub has_clock_gap : Bool
  pub has_overflow : Bool

abbrev pub no_discontinuity : AudioDiscontinuity
no_discontinuity = record { has_device_report = false; has_clock_gap = false; has_overflow = false }

abbrev pub device_reported : AudioDiscontinuity
device_reported = record { has_device_report = true; has_clock_gap = false; has_overflow = false }

abbrev pub sample_clock_gap : AudioDiscontinuity
sample_clock_gap = record { has_device_report = false; has_clock_gap = true; has_overflow = false }

abbrev pub callback_queue_overflow : AudioDiscontinuity
callback_queue_overflow = record {
  has_device_report = false;
  has_clock_gap = false;
  has_overflow = true;
}

-- `|`.
abbrev pub union : AudioDiscontinuity → AudioDiscontinuity → AudioDiscontinuity
union a b = record {
  has_device_report = a.has_device_report || b.has_device_report;
  has_clock_gap = a.has_clock_gap || b.has_clock_gap;
  has_overflow = a.has_overflow || b.has_overflow;
}

-- `contains`: every flag of the second is in the first.
abbrev pub contains : AudioDiscontinuity → AudioDiscontinuity → Bool
contains a b =
    (not b.has_device_report || a.has_device_report)
    && (not b.has_clock_gap || a.has_clock_gap)
    && (not b.has_overflow || a.has_overflow)

unfoldable pub bits : AudioDiscontinuity → ℕ
bits a =
    (if a.has_device_report then 1 else 0)
    + (if a.has_clock_gap then 2 else 0)
    + (if a.has_overflow then 4 else 0)

-- `bits & 0b111`, a flag for each digit.
unfoldable pub from_bits_truncate : ℕ → AudioDiscontinuity
from_bits_truncate n = record {
  has_device_report = n % 2 == 1;
  has_clock_gap = n / 2 % 2 == 1;
  has_overflow = n / 4 % 2 == 1;
}

-- The bits that a slot stores give the set back, and unknown bits are dropped.
pub from_bits_truncate-bits :
    (a : AudioDiscontinuity) (n : ℕ)
    → (from_bits_truncate (bits a) ≡ a) × (bits (from_bits_truncate n) ≡ n % 8)
unfolding bits from_bits_truncate
from_bits_truncate-bits a n = ground arith
