-- ===== src/Rtfifo/Session.antt =====
-- A client's calls on one FIFO, one after another.
use xmertl.Base.{ℕ, ◌+◌, ◌^◌, ◌≤◌, ◌≡◌, refl, ap, ◌∙◌, sym}
use xmertl.Base.{Option, some, List, [], ◌∷◌, ◌++◌, true, arith, length, take, replicate}
use xmertl.Base.{length-replicate, take-append-drop}
use xmertl.Base.Memory.{◌>>=◌}
use mathlib.Core.List.{append-nil, append_assoc}
use xmertl.Rtfifo.{Fifo, Status, count, fifo_usable, read_fifo, write_fifo}
use xmertl.Rtfifo.Valid.{IsValid, contents}
use xmertl.Rtfifo.Contents.{read_fifo-IsRead, write_fifo-IsWritten}

pub data Op : Type 0 where
  write : List ℕ → Op
  read : ℕ → Op

-- What a call moved: the bytes that were accepted, or those that were handed out.
pub record Trace : Type 0 where
  pub fifo : Fifo
  pub accepted : List ℕ
  pub delivered : List ℕ

abbrev amount : Status → ℕ
amount (count n) = n
amount _ = 0

unfoldable pub call : Op → Fifo → Option Trace
call (write src) ff = do
  (status, ff') ← write_fifo ff src (length src)
  some (record { fifo = ff'; accepted = take (amount status) src; delivered = [] })
call (read n) ff = do
  (status, ff', out) ← read_fifo ff (replicate n 0) n
  some (record { fifo = ff'; accepted = []; delivered = take (amount status) out })

unfoldable pub session : List Op → Fifo → Option Trace
session [] ff = some (record { fifo = ff; accepted = []; delivered = [] })
session (op ∷ ops) ff = do
  first ← call op ff
  later ← session ops first.fifo
  some (record {
    fifo = later.fifo;
    accepted = first.accepted ++ later.accepted;
    delivered = first.delivered ++ later.delivered;
  })

-- The most that the writes can move the position of the newest byte.
unfoldable pub demand : List Op → ℕ
demand [] = 0
demand (write src ∷ ops) = length src + demand ops
demand (read n ∷ ops) = demand ops

pub record IsCalled (op : Op) (ff : Fifo) (r : Option Trace) : Type 0 where
  pub trace : Trace
  pub returns : r ≡ some trace
  pub valid : IsValid trace.fifo
  pub usable : fifo_usable trace.fifo ≡ true
  pub same_size : trace.fifo.ff_size ≡ ff.ff_size
  pub grown : trace.fifo.ff_top ≤ ff.ff_top + demand (op ∷ [])
  pub order : trace.delivered ++ contents trace.fifo ≡ contents ff ++ trace.accepted

call-IsCalled :
    (op : Op) (ff : Fifo)
    → IsValid ff
    → fifo_usable ff ≡ true
    → ff.ff_top + ff.ff_size ≤ 2 ^ 31
    → IsCalled op ff (call op ff)
unfolding call demand
call-IsCalled (write src) ff v usable small =
    let w = write_fifo-IsWritten ff v usable (length src) src (omega arith) small in
    record {
      trace = record { fifo = w.rest; accepted = take w.amount src; delivered = [] };
      returns = rw w.returns;
      valid = w.valid;
      usable = w.still_usable;
      same_size = w.same_size;
      grown = omega (arith, w.grown, w.amount_is);
      order = w.held;
    }
call-IsCalled (read n) ff v usable small =
    let r =
      read_fifo-IsRead ff v usable n (replicate n 0) (omega (arith, length-replicate n ℕ.zero))
        (omega (arith, v.room)) in
    record {
      trace = record { fifo = r.rest; accepted = []; delivered = take r.amount r.out };
      returns = rw r.returns;
      valid = r.valid;
      usable = r.still_usable;
      same_size = r.same_size;
      grown = omega (arith, r.grown);
      order = rw (r.oldest, r.left, append-nil) (take-append-drop n (contents ff));
    }

pub record IsOrdered (ff : Fifo) (r : Option Trace) : Type 0 where
  pub trace : Trace
  pub returns : r ≡ some trace
  pub valid : IsValid trace.fifo
  pub order : trace.delivered ++ contents trace.fifo ≡ contents ff ++ trace.accepted

demand-cons : (op : Op) (ops : List Op) → demand (op ∷ ops) ≡ demand (op ∷ []) + demand ops
unfolding demand
demand-cons (write src) ops = omega arith
demand-cons (read n) ops = omega arith

-- Any calls on a usable and valid FIFO return, with no access out of range, and leave it valid, as
-- long as its positions cannot leave `long`. What the reads hand out, with what is still held, is
-- what was held before with all that the writes accepted: nothing is lost, doubled or reordered.
pub session-IsOrdered :
    (ops : List Op) (ff : Fifo)
    → IsValid ff
    → fifo_usable ff ≡ true
    → ff.ff_top + ff.ff_size + demand ops ≤ 2 ^ 31
    → IsOrdered ff (session ops ff)
unfolding session
session-IsOrdered [] ff v usable small = record {
  trace = record { fifo = ff; accepted = []; delivered = [] };
  returns = refl;
  valid = v;
  order = sym (append-nil (contents ff));
}
session-IsOrdered (op ∷ ops) ff v usable small =
    let first = call-IsCalled op ff v usable (omega arith) in
    let later =
      session-IsOrdered ops first.trace.fifo first.valid first.usable
        (omega (arith, first.grown, first.same_size, demand-cons op ops)) in
    let d = first.trace.delivered in
    let a = first.trace.accepted in
    record {
      trace = record {
        fifo = later.trace.fifo;
        accepted = a ++ later.trace.accepted;
        delivered = d ++ later.trace.delivered;
      };
      returns = rw (first.returns, later.returns);
      valid = later.valid;
      order =
          append_assoc d later.trace.delivered (contents later.trace.fifo)
          ∙ ap (◌++◌ d) later.order
          ∙ sym (append_assoc d (contents first.trace.fifo) later.trace.accepted)
          ∙ ap (λ (q : List ℕ). q ++ later.trace.accepted) first.order
          ∙ append_assoc (contents ff) a later.trace.accepted;
    }
