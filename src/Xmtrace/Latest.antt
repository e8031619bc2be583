-- ===== src/Xmtrace/Latest.antt =====
-- The current buffer of trace records holds the latest records.
use xmertl.Base.{ℕ, zero, suc, ◌+◌, ◌-◌, ◌≤◌, ◌<◌, min, ◌≡◌, ◌∙◌, Bool, false, arith}
use xmertl.Base.{
  List, ◌∷◌, length, get_or, set, ltb, leb, ◌==◌, if◌then◌else◌, length-set, Bool-cases, inl, inr,
  ◌≢◌, bit_and, ◌||◌,
}
use xmertl.Base.Ints.{ℤ, pos, negsuc}
use xmertl.Base.Memory.{get_or-set}
use xmertl.Xmtrace.{
  TraceRecord, TraceBuffer, Tracer, current_buffer, no_record, no_buffer, put, rtl_tnrecords,
  rtl_trace_max_events, finalize_event, rtl_do_trace,
}

-- The place of the record that was written `k` records before the last one.
pub back : ℕ → ℕ → ℕ
back cur k = if ltb k cur then cur - 1 - k else cur + rtl_tnrecords - 1 - k

-- The buffer holds the latest records of `history`, the last one first.
pub record IsHolding (s : Tracer) (history : List TraceRecord) : Type 0 where
  pub inside : s.cbuf < length s.buffers
  pub size : length (current_buffer s).trace ≡ rtl_tnrecords
  pub place : s.cur < rtl_tnrecords
  pub held : s.len ≡ min rtl_tnrecords (length history)
  pub latest :
      (k : ℕ)
      → k < s.len
      → get_or (current_buffer s).trace (back s.cur k) no_record ≡ get_or history k no_record

abbrev next_place : ℕ → ℕ
next_place cur = if leb rtl_tnrecords (cur + 1) then 0 else cur + 1

back-next_place : (cur : ℕ) → cur < 40 → back (next_place cur) 0 ≡ cur
unfolding back
back-next_place cur h = ground arith

back-suc : (cur j : ℕ) → cur < 40 → j < 39 → back (next_place cur) (suc j) ≡ back cur j
unfolding back
back-suc cur j h h' = ground arith

back-other : (cur j : ℕ) → cur < 40 → j < 39 → (cur == back cur j) ≡ false
unfolding back
back-other cur j h h' = ground arith

-- The records after `r` is written at the place `cur`.
latest_after :
    (trace : List TraceRecord) (cur len : ℕ) (r : TraceRecord) (history : List TraceRecord)
    → length trace ≡ 40
    → cur < 40
    → ((k : ℕ) → k < len → get_or trace (back cur k) no_record ≡ get_or history k no_record)
    → (k : ℕ) → k < (if ltb len 40 then len + 1 else len)
    → len ≤ 40
    → get_or (set trace cur r) (back (next_place cur) k) no_record
      ≡ get_or (r ∷ history) k no_record
latest_after trace cur len r history size place latest zero h full =
    rw (back-next_place cur place)
      (ground (arith, get_or-set trace cur cur r no_record (omega (arith, size))))
latest_after trace cur len r history size place latest (suc j) h full =
    let below : j < 39 = ground arith in
    let before : j < len = ground arith in
    rw
      (
        back-suc cur j place below,
        get_or-set trace cur (back cur j) r no_record (omega (arith, size)),
        back-other cur j place below,
      )
      (latest j before)

-- One more record is held, in place of the oldest one when the buffer is full.
put-IsHolding :
    (r : TraceRecord) (s : Tracer) (history : List TraceRecord)
    → IsHolding s history
    → IsHolding (put r s) (r ∷ history)
unfolding put back
put-IsHolding r s history h =
    let b = current_buffer s in
    let b' : TraceBuffer = record b { trace = set b.trace s.cur r } in
    let stored : get_or (set s.buffers s.cbuf b') s.cbuf no_buffer ≡ b' =
      ground (arith, get_or-set s.buffers s.cbuf s.cbuf b' no_buffer h.inside) in
    record {
      inside = omega (arith, h.inside, length-set s.buffers s.cbuf b');
      size = rw stored (length-set b.trace s.cur r ∙ h.size);
      place = ground (arith, h.place);
      held = ground (arith, h.held);
      latest = λ k below. rw stored (
          latest_after b.trace s.cur s.len r history h.size h.place h.latest k below
            (omega (arith, h.held)));
    }

-- The record that `rtl_do_trace` makes.
abbrev pub made : ℕ → Bool → ℕ → ℕ → ℤ → ℕ → TraceRecord
made now in_interrupt domain event_id event_data eip = record {
  timestamp = now;
  event_data = event_data;
  eip = eip;
  event_id = event_id;
  domain_id = if in_interrupt then negsuc 0 else pos domain;
}

-- A call of `rtl_do_trace` for an event other than RTL_TRACE_FINALIZE keeps the latest records, forty
-- at most, in the current buffer: the event is one more record if its number is in range and its
-- class is traced, and else changes none.
pub rtl_do_trace-IsHolding :
    (class_of : ℕ → ℕ) (eventmask now : ℕ) (in_interrupt : Bool) (domain event_id : ℕ)
    (event_data : ℤ) (eip : ℕ) (s : Tracer) (history : List TraceRecord)
    → event_id ≢ finalize_event
    → IsHolding s history
    → IsHolding
        (rtl_do_trace class_of eventmask now in_interrupt domain event_id event_data eip s)
        (if leb rtl_trace_max_events event_id || (bit_and (class_of event_id) eventmask == 0)
          then history
          else made now in_interrupt domain event_id event_data eip ∷ history)
unfolding rtl_do_trace
rtl_do_trace-IsHolding class_of eventmask now in_interrupt domain event_id event_data eip s history
      ne h =
    let other : (event_id == finalize_event) ≡ false = ground (arith, ne) in
    elim (Bool-cases (leb rtl_trace_max_events event_id)) [
      | inl past ↦ rw (rtl_do_trace, past) h
      | inr inside ↦ elim (Bool-cases (bit_and (class_of event_id) eventmask == 0)) [
        | inl off ↦ rw (rtl_do_trace, inside, other, off) h
        | inr traced ↦
            rw (rtl_do_trace, inside, other, traced)
              (put-IsHolding (made now in_interrupt domain event_id event_data eip) s history h)
      ]
    ]
