-- ===== src/Tests/Xmtrace.antt =====
-- A trace of xtratum/kernel/xmtrace_core.c with one buffer, two records before its end.
use xmertl.Base.{
  ℕ, ◌≡◌, refl, true, [], ◌∷◌, ◌||◌, leb, ◌==◌, if◌then◌else◌, bit_and, replicate, arith,
}
use xmertl.Base.Ints.{pos}
use xmertl.Xmtrace.{TraceBuffer, Tracer, no_record, no_buffer, rtl_do_trace, put}
use xmertl.Xmtrace.Latest.{IsHolding, made, rtl_do_trace-IsHolding}

abbrev buffer : TraceBuffer
buffer = record no_buffer { trace = replicate 40 no_record }

abbrev tracer : Tracer
tracer = record {
  trace_data_ready = 0;
  overwritten = 0;
  finalize_count = 0;
  writer_cpos = 0;
  writer_npos = 0;
  buffers = buffer ∷ [];
  timestamp = 0;
  cbuf = 0;
  len = 0;
  cur = 39;
}

abbrev class_of : ℕ → ℕ
class_of event_id = 1

tracer-IsHolding : IsHolding tracer []
tracer-IsHolding = record {
  inside = omega arith;
  size = refl;
  place = omega arith;
  held = refl;
  latest = λ k h. absurd (omega arith);
}

-- The record goes to the end of the buffer, and the next one to its start.
next_record : (rtl_do_trace class_of 1 500 true 0 20 (pos 7) 64 tracer).cur ≡ 0
unfolding rtl_do_trace put
next_record = refl

rtl_do_trace-IsHolding_example :
    IsHolding (rtl_do_trace class_of 1 500 true 0 20 (pos 7) 64 tracer) (
      if leb 64 20 || (bit_and (class_of 20) 1 == 0)
      then []
      else made 500 true 0 20 (pos 7) 64 ∷ [])
rtl_do_trace-IsHolding_example =
    rtl_do_trace-IsHolding class_of 1 500 true 0 20 (pos 7) 64 tracer [] (ground arith)
      tracer-IsHolding

abbrev fresh : Tracer
fresh = record tracer { buffers = replicate 32 buffer; len = 2; cur = 2 }
