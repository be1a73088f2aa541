-- ===== src/Wal/Moving.antt =====
-- internal/wal/wal.go: SetCursor, ApplyBackfillPolicy and MoveToDLQ.
use influx_sync.Base.{
  ℕ, ◌+◌, ◌≤◌, ◌<◌, ◌≡◌, ◌≢◌, sym, some, List, ◌∷◌, ==_refl, ne→==, length, err, drop-suc, ge→ltb,
  lt→ltb,
}
use mathlib.Core.Path.{subst}
use influx_sync.Wal.{Wal, dlq_over_capacity, dlq_unknown}
use influx_sync.Wal.Reading.{frame_at}
use influx_sync.Wal.Commit.{commit}
use influx_sync.Wal.Burying.{bury, move_at, move_to_dlq}
use influx_sync.Wal.Queue.{Queue, Holds, pending, Represents}
use influx_sync.Wal.Confirming.{first_entry}

-- The log with a frame more in its dead-letter directory.
abbrev pub buried : Wal → ℕ → List ℕ → ℕ → Wal
buried w seq frame text = record w {
  dead = (seq, frame) ∷ w.dead;
  dead_size = w.dead_size + (length frame + text);
}

buried-Represents :
    (w : Wal) (seq text : ℕ) (frame : List ℕ) (q : Queue)
    → Represents w q
    → Represents (buried w seq frame text) q
buried-Represents w seq text frame q r = record {
  stands = record {
    holds = r.holds;
    ordered = r.ordered;
    numbered = r.numbered;
    acked_fits = r.acked_fits;
  };
  open_file = r.open_file;
  closed = r.closed;
}

-- MoveToDLQ of the head of the queue is Commit of the log with that frame, byte for byte, among its
-- dead letters, while the directory is not over its capacity. Over capacity, and for any other
-- number, it answers an error and changes nothing.
pub move_to_dlq-commit :
    (w : Wal) (now seq text s : ℕ) (b : List ℕ) (q : Queue)
    → Represents w ((s, b) ∷ q)
    → (seq ≡ s
        → w.dead_size ≤ w.dlq_max
        → move_to_dlq w now seq text ≡ commit (buried w s b text) now s)
      × (seq ≡ s
          → w.dlq_max < w.dead_size
          → move_to_dlq w now seq text ≡ (w, err (dlq_over_capacity w.dead_size)))
      × (seq ≢ s → move_to_dlq w now seq text ≡ (w, err (dlq_unknown seq)))
unfolding move_to_dlq move_at bury
move_to_dlq-commit w now seq text s b q r =
    let (fi, is, e, es) = first_entry w.files (pending w) s b q r.holds in
    let (_, _, at) = drop-suc w.acked w.index fi is e in
    let held : Holds w.files (fi ∷ is) ((s, b) ∷ q) =
      subst (λ t. Holds w.files t ((s, b) ∷ q)) e r.holds in
    let back : frame_at w.files fi ≡ some b = held.1 in
    (
      λ same fits. simp (at, es, same, ==_refl, back, ge→ltb w.dlq_max w.dead_size fits),
      λ same over. simp (at, es, same, ==_refl, back, lt→ltb w.dlq_max w.dead_size over),
      λ other. simp (at, es, ne→== s seq (λ x. other (sym x))),
    )
