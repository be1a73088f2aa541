-- ===== src/Wal/Numbering.antt =====
-- internal/wal/wal.go: Commit leaves the next number as it is.
use influx_sync.Base.{
  ℕ, zero, suc, ◌≡◌, refl, ◌∙◌, Bool, true, false, Option, none, some, ◌==◌, get_elem?, arith,
  Bool-cases, inl, inr,
}
use influx_sync.Wal.{Wal, FrameIndex, persist}
use influx_sync.Wal.Commit.{
  remove_segment, remove_segments, removal_rounds, persist_throttled, persist_commit, confirm,
  commit_at, commit,
}

next_seq-remove_segments :
    (fuel : ℕ) (w : Wal) (removed : Bool)
    → (remove_segments fuel w removed).0.cp.next_seq ≡ w.cp.next_seq
unfolding remove_segments remove_segment
next_seq-remove_segments zero w removed = refl
next_seq-remove_segments (suc fuel) w removed =
    ground (arith, next_seq-remove_segments fuel (remove_segment w) true)

next_seq-persist_commit :
    (now : ℕ) (p : Wal × Bool) → (persist_commit now p).cp.next_seq ≡ p.0.cp.next_seq
unfolding persist_commit persist persist_throttled
next_seq-persist_commit now (w, true) = refl
next_seq-persist_commit now (w, false) = ground arith

next_seq-commit_at :
    (w : Wal) (now seq : ℕ) (fi : Option FrameIndex)
    → (commit_at w now seq fi).0.cp.next_seq ≡ w.cp.next_seq
unfolding commit_at confirm
next_seq-commit_at w now seq none = refl
next_seq-commit_at w now seq (some fi) = elim (Bool-cases (fi.seq == seq)) [
  | inr other ↦ simp other
  | inl same ↦ simp same (
      next_seq-persist_commit now (remove_segments (removal_rounds w) (confirm w fi) false)
      ∙ next_seq-remove_segments (removal_rounds w) (confirm w fi) false)
]

pub next_seq-commit : (w : Wal) (now seq : ℕ) → (commit w now seq).0.cp.next_seq ≡ w.cp.next_seq
unfolding commit
next_seq-commit w now seq = next_seq-commit_at w now seq (get_elem? w.index w.acked)
