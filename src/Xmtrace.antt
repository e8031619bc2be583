-- ===== src/Xmtrace.antt =====
-- xtratum/kernel/xmtrace_core.c: the buffers of trace records, which a reader shares. A pointer into the
-- buffers is an index.
pub mod Latest
pub mod Closing
use xmertl.Base.{ℕ, ◌+◌, ◌%◌, ◌^◌, bit_and, not, Bool, true, false}
use xmertl.Base.{List, [], length, get_or, set, ltb, leb, ◌==◌, if◌then◌else◌}
use xmertl.Base.Ints.{ℤ, pos, negsuc}
use xmertl.Bitmap.{set_bit, clear_bit, is_bit_set}

-- `struct rtl_trace_record`
pub record TraceRecord : Type 0 where
  pub timestamp : ℕ
  pub event_data : ℤ
  pub eip : ℕ
  pub event_id : ℕ
  pub domain_id : ℤ

-- `struct rtl_trace_buffer`
pub record TraceBuffer : Type 0 where
  pub position : ℕ
  pub timestamp : ℕ
  pub len : ℕ
  pub id : ℕ
  pub overwritten : ℕ
  pub trace : List TraceRecord

-- `struct rtl_trace`, and the variables of the file. `timestamp`, `len`, `cbuf` and `cur` are the
-- variables; `cur` counts from `sbp`.
pub record Tracer : Type 0 where
  pub trace_data_ready : ℕ
  pub overwritten : ℕ
  pub finalize_count : ℕ
  pub writer_cpos : ℕ
  pub writer_npos : ℕ
  pub buffers : List TraceBuffer
  pub timestamp : ℕ
  pub cbuf : ℕ
  pub len : ℕ
  pub cur : ℕ

abbrev pub no_record : TraceRecord
no_record = record { timestamp = 0; event_data = pos 0; eip = 0; event_id = 0; domain_id = pos 0 }

abbrev pub no_buffer : TraceBuffer
no_buffer = record { position = 0; timestamp = 0; len = 0; id = 0; overwritten = 0; trace = [] }

-- `CBUF`
abbrev pub current_buffer : Tracer → TraceBuffer
current_buffer s = get_or s.buffers s.cbuf no_buffer

abbrev pub set_current_buffer : Tracer → TraceBuffer → Tracer
set_current_buffer s b = record s { buffers = set s.buffers s.cbuf b }

abbrev pub rtl_trace_max_events : ℕ
rtl_trace_max_events = 64

abbrev pub rtl_tnbuffers : ℕ
rtl_tnbuffers = 32

abbrev pub rtl_tnrecords : ℕ
rtl_tnrecords = 40

-- RTL_TRACE_FINALIZE
abbrev pub finalize_event : ℕ
finalize_event = 18

unfoldable pub init_current_buffer : Tracer → Tracer
init_current_buffer s = record s { len = 0; cur = 0 }

-- The record of `rtl_do_trace` for an event whose class is traced.
unfoldable pub put : TraceRecord → Tracer → Tracer
put r s =
    let b = current_buffer s in
    let written = set_current_buffer s (record b { trace = set b.trace s.cur r }) in
    record written {
      len = if ltb s.len rtl_tnrecords then s.len + 1 else s.len;
      cur = if leb rtl_tnrecords (s.cur + 1) then 0 else s.cur + 1;
    }

unfoldable pub rtl_trace_finalize : ℕ → Tracer → Tracer
unfolding init_current_buffer
rtl_trace_finalize id s =
    let npos = (s.writer_cpos + 1) % rtl_tnbuffers in
    let ready = set_bit s.trace_data_ready s.writer_cpos in
    let b = current_buffer s in
    let counted : Tracer = record s {
      timestamp = s.timestamp + 1;
      finalize_count = s.finalize_count + 1;
      writer_npos = npos;
      trace_data_ready = ready;
    } in
    if is_bit_set ready npos
    then init_current_buffer
        (record (set_current_buffer counted (record b { overwritten = b.overwritten + 1 })) {
          overwritten = s.overwritten + 1;
          trace_data_ready = clear_bit ready s.writer_cpos;
        })
    else init_current_buffer
        (record (set_current_buffer counted
          (record b { id = id; timestamp = s.timestamp + 1; len = s.len; position = s.cur })) {
            cbuf = npos;
            writer_cpos = npos;
          })

-- The class of an event, the mask of classes, the time, the flag of `xm_in_interrupt` and the
-- current domain's id are arguments.
unfoldable pub rtl_do_trace : (ℕ → ℕ) → ℕ → ℕ → Bool → ℕ → ℕ → ℤ → ℕ → Tracer → Tracer
rtl_do_trace class_of eventmask now in_interrupt domain event_id event_data eip s =
    if leb rtl_trace_max_events event_id
    then s
    else if event_id == finalize_event
    then rtl_trace_finalize 1 s
    else if not (bit_and (class_of event_id) eventmask == 0)
    then put
        (record {
          timestamp = now;
          event_data = event_data;
          eip = eip;
          event_id = event_id;
          domain_id = if in_interrupt then negsuc 0 else pos domain;
        })
        s
    else s
