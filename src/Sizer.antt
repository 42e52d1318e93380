-- ===== src/Sizer.antt =====
-- remoc/src/chmux/sizer.rs: the report of held credits and the size of the shared receive buffer.
pub mod Dynamic
mod Examples
use remoc.Base.{
  ℕ, ◌+◌, ◌-◌, ◌*◌, ◌/◌, ◌%◌, ◌^◌, min, max, ltb, ◌==◌, ◌||◌, not, if◌then◌else◌, Bool, true, false,
  leb, Option, some, none, ◌!=◌,
}

pub record GlobalCreditsReport : Type 0 where
  pub current : ℕ
  pub least : ℕ
  pub seq : ℕ

abbrev pub initial_report : ℕ → GlobalCreditsReport
initial_report credits = record { current = credits; least = credits; seq = 0 }

-- Subtraction on ℕ stops at zero, as `saturating_sub` does.
abbrev pub consume_report : GlobalCreditsReport → ℕ → GlobalCreditsReport
consume_report r credits = record r {
  current = r.current - credits;
  least = min r.least (r.current - credits);
}

pub record BufferSizeQuery : Type 0 where
  pub current_size : ℕ
  pub used : ℕ
  pub returnable : ℕ
  pub seq : ℕ
  pub report : GlobalCreditsReport
  pub report_is_current : Bool

pub record BufferSize : Type 0 where
  pub size : ℕ
  pub return_threshold : ℕ
  pub force_return : Bool

-- `Ord::clamp` with `low` at most `high`.
abbrev pub clamp : ℕ → ℕ → ℕ → ℕ
clamp n low high = max low (min n high)

abbrev pub new_size : ℕ → BufferSize
new_size size = record {
  size = size;
  return_threshold = clamp (size / 10) 1 1_048_576;
  force_return = false;
}

-- A buffer sizer with its state: `initial` and `size` of the trait.
pub record BufferSizer {ℓ} (S : Type ℓ) : Type ℓ where
  pub initial : S → S × BufferSize
  pub size : S → BufferSizeQuery → S × BufferSize

-- `FixedBuffer`
abbrev pub fixed_buffer : BufferSizer BufferSize
fixed_buffer = record { initial = λ b. (b, b); size = λ b query. (b, b) }

pub record DynamicBuffer : Type 0 where
  pub least : ℕ
  pub most : ℕ
  pub level_quot : ℕ
  pub current : BufferSize
  pub low_level : ℕ
  pub high_level : ℕ
  pub record_max : ℕ

-- `none` is the panic of the assertion.
abbrev pub new_dynamic : ℕ → ℕ → Option DynamicBuffer
new_dynamic least most =
    if leb least most
    then some (record {
      least = least;
      most = most;
      level_quot = 2;
      current = new_size 0;
      low_level = 0;
      high_level = 0;
      record_max = 0;
    })
    else none

unfoldable pub set_size : DynamicBuffer → ℕ → DynamicBuffer
set_size d size' =
    let size = clamp size' d.least d.most in
    let low_level = clamp (size / d.level_quot) 1_024 1_048_576 in
    if d.current.size == size then d else record d {
      current = new_size size;
      low_level = low_level;
      high_level = 4 * low_level % 2 ^ 32;
      record_max = max size d.record_max;
    }

abbrev pub saturating_mul : ℕ → ℕ → ℕ
saturating_mul a b = min (a * b) (2 ^ 32 - 1)

abbrev pub with_current : DynamicBuffer → DynamicBuffer × BufferSize
with_current d = (d, d.current)

unfoldable pub dynamic_size : DynamicBuffer → BufferSizeQuery → DynamicBuffer × BufferSize
dynamic_size d query =
    if not query.report_is_current || (query.current_size != d.current.size)
    then with_current d
    else if ltb query.report.least d.low_level
    then with_current (set_size d (saturating_mul d.current.size 4))
    else if ltb d.high_level query.report.least
    then with_current
        (set_size d (d.current.size - min ((query.report.least - d.high_level) / 2) 65_536))
    else with_current d

abbrev pub dynamic_buffer : BufferSizer DynamicBuffer
dynamic_buffer = record { initial = λ d. with_current (set_size d d.least); size = dynamic_size }
