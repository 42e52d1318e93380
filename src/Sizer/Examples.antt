-- ===== src/Sizer/Examples.antt =====
-- sizer.rs: the theorem at concrete inputs.
use remoc.Base.{refl, true, [], ◌∷◌, arith}
use remoc.Sizer.{BufferSizeQuery, DynamicBuffer, new_size, dynamic_buffer}
use remoc.Sizer.Dynamic.{AllAnswers, answers, dynamic_buffer-AllAnswers}

abbrev buffer : DynamicBuffer
buffer = record {
  least = 4_096;
  most = 65_536;
  level_quot = 2;
  current = new_size 0;
  low_level = 0;
  high_level = 0;
  record_max = 0;
}

abbrev starved : BufferSizeQuery
starved = record {
  current_size = 4_096;
  used = 4_000;
  returnable = 0;
  seq = 0;
  report = record { current = 96; least = 0; seq = 0 };
  report_is_current = true;
}

dynamic_buffer-AllAnswers_example :
    let (d', b) = dynamic_buffer.initial buffer in
    AllAnswers 4_096 65_536 (b ∷ answers d' (starved ∷ []))
dynamic_buffer-AllAnswers_example =
    dynamic_buffer-AllAnswers 4_096 65_536 buffer (starved ∷ []) (omega arith) refl
