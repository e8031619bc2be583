-- ===== src/Xmtrace/Closing.antt =====
-- `rtl_trace_finalize`: a buffer is closed for the reader, and the next one is taken.
use xmertl.Base.{ℕ, ◌+◌, ◌<◌, ◌≡◌, true, false, ◌⊎◌}
use xmertl.Base.{length, get_or, ◌==◌, if◌then◌else◌}
use xmertl.Bitmap.{is_bit_set}
use xmertl.Xmtrace.{Tracer, current_buffer, no_buffer, rtl_tnrecords, rtl_tnbuffers}

-- Thirty-two buffers of forty records, one of which is written.
pub record IsTracing (s : Tracer) : Type 0 where
  pub count : length s.buffers ≡ rtl_tnbuffers
  pub place : s.writer_cpos < rtl_tnbuffers
  pub current : s.cbuf ≡ s.writer_cpos
  pub sized :
      (i : ℕ) → i < rtl_tnbuffers → length (get_or s.buffers i no_buffer).trace ≡ rtl_tnrecords

-- The buffer after the one that is written
abbrev pub next_buffer : Tracer → ℕ
next_buffer s = if s.cbuf == 31 then 0 else s.cbuf + 1

-- The next buffer is not with the reader: the buffer that was written is given to the reader with its
-- records, its number and its time, and the next one is taken.
pub record IsHandedOver (id : ℕ) (s s' : Tracer) : Type 0 where
  pub free : is_bit_set s.trace_data_ready (next_buffer s) ≡ false
  pub next : s'.cbuf ≡ next_buffer s
  pub ready :
      (i : ℕ)
      → i < 32
      → is_bit_set s'.trace_data_ready i
        ≡ (if s.cbuf == i then true else is_bit_set s.trace_data_ready i)
  pub records : (get_or s'.buffers s.cbuf no_buffer).trace ≡ (current_buffer s).trace
  pub len : (get_or s'.buffers s.cbuf no_buffer).len ≡ s.len
  pub named : (get_or s'.buffers s.cbuf no_buffer).id ≡ id
  pub time : (get_or s'.buffers s.cbuf no_buffer).timestamp ≡ s.timestamp + 1
  pub kept : s'.overwritten ≡ s.overwritten

-- The next buffer is with the reader: the buffer that was written is used again, and that is counted,
-- for the tracer and for the buffer.
pub record IsDropped (s s' : Tracer) : Type 0 where
  pub busy : is_bit_set s.trace_data_ready (next_buffer s) ≡ true
  pub same : s'.cbuf ≡ s.cbuf
  pub ready :
      (i : ℕ)
      → i < 32
      → is_bit_set s'.trace_data_ready i
        ≡ (if s.cbuf == i then false else is_bit_set s.trace_data_ready i)
  pub counted : s'.overwritten ≡ s.overwritten + 1
  pub local : (get_or s'.buffers s.cbuf no_buffer).overwritten ≡ (current_buffer s).overwritten + 1

pub IsClosed : ℕ → Tracer → Tracer → Type 0
IsClosed id s s' = IsHandedOver id s s' ⊎ IsDropped s s'
