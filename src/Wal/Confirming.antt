-- ===== src/Wal/Confirming.antt =====
-- internal/wal/wal.go: Commit takes the head of the queue, and removes the segments that hold no
-- unconfirmed frame any more.
use influx_sync.Base.{
  ℕ, zero, suc, ◌+◌, ◌-◌, ◌≤◌, ◌<◌, ◌≡◌, ◌≢◌, refl, ap, sym, ◌∙◌, Bool, true, false, List, [], ◌∷◌,
  ltb, ◌==◌, ==_refl, ne→==, if◌then◌else◌, get_elem?, drop, arith, ok, err, Bool-cases, inl, inr,
  All, get_elem?-drop, drop-suc,
}
use mathlib.Core.Path.{subst}
use mathlib.Core.Bool.{false≢true}
use influx_sync.Wal.{Wal, FrameIndex, commit_out_of_order, checkpoint_interval, persist}
use influx_sync.Wal.Commit.{
  after_segment, seg_done, remove_segment, no_frames, remove_segments, removal_rounds,
  persist_commit, confirm, commit,
}
use influx_sync.Wal.Segments.{Files, content-remove}
use influx_sync.Wal.Queue.{Queue, Holds, Holds-remove, Ordered, Ordered-up, pending, Represents}

abbrev IsPast : ℕ → List FrameIndex → Type 0
IsPast k is = All (λ fi. k < fi.seg) is

Ordered-IsPast : (k lo hi : ℕ) (is : List FrameIndex) → k < lo → Ordered lo hi is → IsPast k is
Ordered-IsPast k lo hi [] l h = tt
Ordered-IsPast k lo hi (fi ∷ is) l (m, h) =
    (omega arith, Ordered-IsPast k fi.seg hi is (omega arith) h)

Ordered-down :
    (lo lo' hi : ℕ) (is : List FrameIndex) → lo ≤ lo' → Ordered lo' hi is → Ordered lo hi is
Ordered-down lo lo' hi [] l h = omega arith
Ordered-down lo lo' hi (fi ∷ is) l (m, h) = (omega arith, h)

away_behind : (k : ℕ) (is : List FrameIndex) → IsPast k is → All (λ fi. k ≢ fi.seg) is
away_behind k [] h = tt
away_behind k (fi ∷ is) (l, h) = ((λ e. absurd (omega (arith, l, e))), away_behind k is h)

pub Ordered-bound :
    (lo hi : ℕ) (is : List FrameIndex) → Ordered lo hi is → lo ≤ hi × All (λ fi. fi.seg < hi + 1) is
Ordered-bound lo hi [] h = (h, tt)
Ordered-bound lo hi (fi ∷ is) (l, h) =
    let (le, all) = Ordered-bound fi.seg hi is h in (omega (arith, l, le), (omega (arith, le), all))

-- With the oldest segment done, the queue starts behind it.
pub behind_done :
    (k hi : ℕ) (is : List FrameIndex)
    → after_segment k (get_elem? is 0) ≡ true
    → Ordered k hi is
    → IsPast k is
unfolding after_segment
behind_done k hi [] d h = tt
behind_done k hi (fi ∷ is) d (l, h) =
    let m : k < fi.seg = ground arith in (m, Ordered-IsPast k fi.seg hi is m h)

Ordered-done :
    (k cur : ℕ) (is : List FrameIndex)
    → after_segment k (get_elem? is 0) ≡ true
    → Ordered k cur is
    → Ordered (k + 1) (if k == cur then cur + 1 else cur) is
unfolding after_segment
Ordered-done k cur [] d h = ground arith
Ordered-done k cur (fi ∷ is) d (l, h) =
    (ground arith, Ordered-up fi.seg cur (if k == cur then cur + 1 else cur) is (ground arith) h)

pub remove_segment-Represents :
    (w : Wal) (q : Queue) → Represents w q → seg_done w ≡ true → Represents (remove_segment w) q
unfolding seg_done remove_segment
remove_segment-Represents w q r d =
    let k = w.cp.seg_start in
    let front : after_segment k (get_elem? (pending w) 0) ≡ true =
      rw (get_elem?-drop w.acked w.index) at d in
    record {
      stands = record {
        holds =
            Holds-remove w.files k (pending w) q
              (away_behind k (pending w) (behind_done k w.cur_seg (pending w) front r.ordered))
              r.holds;
        ordered = Ordered-done k w.cur_seg (pending w) front r.ordered;
        numbered = r.numbered;
        acked_fits = omega arith;
      };
      open_file = elim (Bool-cases (k == w.cur_seg)) [
        | inl end ↦ simp end (λ o. absurd (false≢true o))
        | inr more ↦ simp (more, content-remove) r.open_file
      ];
      closed = elim (Bool-cases (k == w.cur_seg)) [
        | inl end ↦ simp end (λ _. (Ordered-bound k w.cur_seg (pending w) r.ordered).1)
        | inr more ↦ simp more r.closed
      ];
    }

remove_segments-Represents :
    (fuel : ℕ) (w : Wal) (removed : Bool) (q : Queue)
    → Represents w q
    → Represents (remove_segments fuel w removed).0 q
unfolding remove_segments
remove_segments-Represents zero w removed q r = r
remove_segments-Represents (suc fuel) w removed q r = elim (Bool-cases (seg_done w)) [
  | inr more ↦ simp more r
  | inl d ↦
      let r' = remove_segment-Represents w q r d in
      elim (Bool-cases (no_frames (remove_segment w).index)) [
        | inl none_left ↦ simp (d, none_left) r'
        | inr some_left ↦
            simp (d, some_left) (remove_segments-Represents fuel (remove_segment w) true q r')
      ]
]

pub saved-Represents :
    (w : Wal) (now : ℕ) (q : Queue) → Represents w q → Represents (persist w now) q
unfolding persist
saved-Represents w now q r = record {
  stands = record {
    holds = r.holds;
    ordered = r.ordered;
    numbered = r.numbered;
    acked_fits = r.acked_fits;
  };
  open_file = r.open_file;
  closed = r.closed;
}

persist-Represents :
    (now : ℕ) (p : Wal × Bool) (q : Queue) → Represents p.0 q → Represents (persist_commit now p) q
unfolding persist_commit
persist-Represents now (w, true) q r = saved-Represents w now q r
persist-Represents now (w, false) q r =
    elim (Bool-cases (ltb (now - w.last_cp) checkpoint_interval)) [
      | inl soon ↦ simp soon r
      | inr late ↦ simp late (saved-Represents w now q r)
    ]

pub confirm-Represents :
    (w : Wal) (fi : FrameIndex) (s : ℕ) (b : List ℕ) (q : Queue) (is : List FrameIndex)
    → pending w ≡ fi ∷ is
    → Represents w ((s, b) ∷ q)
    → Represents (confirm w fi) q
unfolding confirm
confirm-Represents w fi s b q is e r =
    let (d, l, _) = drop-suc w.acked w.index fi is e in
    let rest : drop (w.acked + 1) w.index ≡ is =
      let one : w.acked + 1 ≡ suc w.acked = omega arith in ap (λ (n : ℕ). drop n w.index) one ∙ d in
    let held : Holds w.files (fi ∷ is) ((s, b) ∷ q) =
      subst (λ t. Holds w.files t ((s, b) ∷ q)) e r.holds in
    let sorted : Ordered w.cp.seg_start w.cur_seg (fi ∷ is) =
      subst (λ t. Ordered w.cp.seg_start w.cur_seg t) e r.ordered in
    record {
      stands = record {
        holds = subst (λ t. Holds w.files t q) (sym rest) held.2;
        ordered =
            subst (λ t. Ordered w.cp.seg_start w.cur_seg t) (sym rest)
              (Ordered-down w.cp.seg_start fi.seg w.cur_seg is sorted.0 sorted.1);
        numbered = r.numbered.1;
        acked_fits = omega arith;
      };
      open_file = r.open_file;
      closed = λ shut.
          let all : All (λ fi. fi.seg < w.cur_seg) (fi ∷ is) =
            subst (λ t. All (λ fi. fi.seg < w.cur_seg) t) e (r.closed shut) in
          subst (λ t. All (λ fi. fi.seg < w.cur_seg) t) (sym rest) all.1;
    }

-- The unconfirmed index has the head of the queue at its front.
pub first_entry :
    (files : Files) (is : List FrameIndex) (s : ℕ) (b : List ℕ) (q : Queue)
    → Holds files is ((s, b) ∷ q)
    → (fi : FrameIndex) × (is' : List FrameIndex) × (is ≡ fi ∷ is') × (fi.seq ≡ s)
first_entry files [] s b q h = absurd h
first_entry files (fi ∷ is) s b q (e, _, _) = (fi, is, refl, e)

-- Commit of the number at the head of the queue takes that frame off it. Commit of another number
-- answers an error that names the head, and changes nothing.
pub commit-Represents :
    (w : Wal) (now seq s : ℕ) (b : List ℕ) (q : Queue)
    → Represents w ((s, b) ∷ q)
    → (seq ≡ s → Represents (commit w now seq).0 q × ((commit w now seq).1 ≡ ok tt))
      × (seq ≢ s → commit w now seq ≡ (w, err (commit_out_of_order seq s)))
unfolding commit
commit-Represents w now seq s b q r =
    let (fi, is, e, es) = first_entry w.files (pending w) s b q r.holds in
    let (_, _, at) = drop-suc w.acked w.index fi is e in
    (
      λ same.
          simp (at, es, same, ==_refl)
            (
              persist-Represents now (remove_segments (removal_rounds w) (confirm w fi) false) q (
                  remove_segments-Represents (removal_rounds w) (confirm w fi) false q
                    (confirm-Represents w fi s b q is e r)),
              refl,
            ),
      λ other. simp (at, es, ne→== s seq (λ x. other (sym x))),
    )
