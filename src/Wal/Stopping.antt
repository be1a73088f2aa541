-- ===== src/Wal/Stopping.antt =====
-- internal/wal/wal.go: the loop of commitLocked that removes segments ends by its own tests.
use influx_sync.Base.{
  ℕ, zero, suc, ◌+◌, ◌-◌, ◌<◌, ◌≡◌, ◌⊎◌, inl, inr, refl, sym, ◌∙◌, Bool, true, false, List, [], ◌∷◌,
  ◌==◌, ==_iff, ==_refl, ltb, drop-suc, arith, Bool-cases, get_elem?, get_elem?-drop, All,
}
use mathlib.Core.Path.{subst}
use mathlib.Core.Bool.{false≢true}
use influx_sync.Wal.{Wal, FrameIndex, persist, checkpoint_interval}
use influx_sync.Wal.Commit.{
  after_segment, seg_done, remove_segment, no_frames, remove_segments, removal_rounds, confirm,
  persist_throttled, persist_commit, commit_at, commit,
}
use influx_sync.Wal.Queue.{Queue, pending, Represents}
use influx_sync.Wal.Confirming.{
  Ordered-bound, behind_done, remove_segment-Represents, confirm-Represents, first_entry,
}

-- Where the loop stops: no frame is left, or the oldest segment has an unconfirmed one.
abbrev pub HasStopped : Wal → Type 0
HasStopped w = (no_frames w.index ≡ true) ⊎ (seg_done w ≡ false)

-- No frame is both behind the current segment and in it.
nothing_behind :
    (k : ℕ) (is : List FrameIndex)
    → All (λ fi. k < fi.seg) is
    → All (λ fi. fi.seg < k + 1) is
    → no_frames is ≡ true
unfolding no_frames
nothing_behind k [] h h' = refl
nothing_behind k (fi ∷ is) (l, _) (l', _) = absurd (omega (arith, l, l'))

-- A round that leaves frames has not removed the current segment.
not_current :
    (w : Wal) (q : Queue)
    → Represents w q
    → seg_done w ≡ true
    → no_frames (remove_segment w).index ≡ false
    → w.cp.seg_start == w.cur_seg ≡ false
unfolding seg_done remove_segment
not_current w q r d left = elim (Bool-cases (w.cp.seg_start == w.cur_seg)) [
  | inr other ↦ other
  | inl same ↦
      let is : w.cp.seg_start ≡ w.cur_seg = (==_iff w.cp.seg_start w.cur_seg).0 same in
      let front : after_segment w.cp.seg_start (get_elem? (pending w) 0) ≡ true =
        rw (get_elem?-drop w.acked w.index) at d in
      let behind = behind_done w.cp.seg_start w.cur_seg (pending w) front r.ordered in
      let (_, bound) = Ordered-bound w.cp.seg_start w.cur_seg (pending w) r.ordered in
      let none_left =
        nothing_behind w.cp.seg_start (pending w) behind
          (subst (λ t. All (λ fi. fi.seg < t + 1) (pending w)) (sym is) bound) in
      absurd (false≢true (sym left ∙ none_left))
]

remove_segments-HasStopped :
    (fuel : ℕ) (w : Wal) (removed : Bool) (q : Queue)
    → Represents w q
    → w.cur_seg < fuel + w.cp.seg_start
    → HasStopped (remove_segments fuel w removed).0
unfolding remove_segments
remove_segments-HasStopped zero w removed q r enough =
    absurd (omega (arith, enough, (Ordered-bound w.cp.seg_start w.cur_seg (pending w) r.ordered).0))
remove_segments-HasStopped (suc fuel) w removed q r enough = elim (Bool-cases (seg_done w)) [
  | inr more ↦ simp more (inr refl)
  | inl d ↦ elim (Bool-cases (no_frames (remove_segment w).index)) [
    | inl none_left ↦ simp (d, none_left) (inl refl)
    | inr some_left ↦
        let r' = remove_segment-Represents w q r d in
        let next = remove_segment w in
        let stays : next.cur_seg ≡ w.cur_seg =
          unfold remove_segment in simp (not_current w q r d some_left) in
        let up : next.cp.seg_start ≡ w.cp.seg_start + 1 = unfold remove_segment in refl in
        simp (d, some_left)
          (remove_segments-HasStopped fuel next true q r' (omega (arith, enough, stays, up)))
  ]
]

persist-HasStopped : (now : ℕ) (p : Wal × Bool) → HasStopped p.0 → HasStopped (persist_commit now p)
unfolding persist_commit persist persist_throttled seg_done
persist-HasStopped now (w, true) h = h
persist-HasStopped now (w, false) h =
    elim (Bool-cases (ltb (now - w.last_cp) checkpoint_interval)) [
      | inl soon ↦ simp soon h
      | inr late ↦ simp late h
    ]

-- Commit of the head of the queue leaves the log where the loop that removes segments ends by its own
-- tests: no frame is left in the index, or the oldest segment holds an unconfirmed one.
pub commit-HasStopped :
    (w : Wal) (now s : ℕ) (b : List ℕ) (q : Queue)
    → Represents w ((s, b) ∷ q)
    → HasStopped (commit w now s).0
unfolding commit commit_at
commit-HasStopped w now s b q r =
    let (fi, is, e, es) = first_entry w.files (pending w) s b q r.holds in
    let (_, _, at) = drop-suc w.acked w.index fi is e in
    let enough : (confirm w fi).cur_seg < removal_rounds w + (confirm w fi).cp.seg_start =
      unfold confirm removal_rounds in omega arith in
    simp (at, es, ==_refl)
      (persist-HasStopped now (remove_segments (removal_rounds w) (confirm w fi) false) (
        remove_segments-HasStopped (removal_rounds w) (confirm w fi) false q
          (confirm-Represents w fi s b q is e r) enough))
