-- ===== src/Wal/Queue.antt =====
-- internal/wal/wal.go: the log stands for the queue of its unconfirmed frames, and appending puts
-- frames at the end of the queue.
use influx_sync.Base.{
  ℕ, suc, ◌+◌, ◌≤◌, ◌<◌, ◌≡◌, ◌≢◌, true, false, some, List, [], ◌∷◌, ◌++◌, length, drop, arith,
  Option-cases, length-append, All, inl, inr,
}
use influx_sync.Wal.{Wal, FrameIndex, record_head_len}
use influx_sync.Wal.Reading.{frame_at}
use influx_sync.Wal.Segments.{
  Files, content, create, append_to, read_at, content-create, content-append_to, read_at-append,
  remove, content-remove,
}

abbrev pub Queue : Type 0
Queue = List (ℕ × List ℕ)

-- Each index entry has its frame's number, and its frame is read back from its segment.
abbrev pub Holds : Files → List FrameIndex → Queue → Type 0
Holds files [] [] = Unit {0}
Holds files [] (x ∷ q) = ⊥
Holds files (fi ∷ is) [] = ⊥
Holds files (fi ∷ is) ((s, b) ∷ q) = (fi.seq ≡ s) × (frame_at files fi ≡ some b) × Holds files is q

-- Segment numbers do not fall along the index, and lie between the oldest and the current one.
abbrev pub Ordered : ℕ → ℕ → List FrameIndex → Type 0
Ordered lo hi [] = lo ≤ hi
Ordered lo hi (fi ∷ is) = (lo ≤ fi.seg) × Ordered fi.seg hi is

-- The numbers are consecutive and end just before `next`.
abbrev pub Numbered : ℕ → Queue → Type 0
Numbered next [] = Unit {0}
Numbered next ((s, b) ∷ q) = (s + suc (length q) ≡ next) × Numbered next q

abbrev pub pending : Wal → List FrameIndex
pending w = drop w.acked w.index

-- The index and the segments hold the queue `q`.
pub record Stands (w : Wal) (q : Queue) : Type 0 where
  pub holds : Holds w.files (pending w) q
  pub ordered : Ordered w.cp.seg_start w.cur_seg (pending w)
  pub numbered : Numbered w.cp.next_seq q
  pub acked_fits : w.acked ≤ length w.index

-- The log stands for the queue `q`. Where the current segment is open its end is known, and where it
-- is not it holds no frame of the queue.
pub record Represents (w : Wal) (q : Queue) : Type 0 where
  pub stands : Stands w q
  pub open stands use *
  pub open_file :
      w.cur_open ≡ true
      → (c : List ℕ) × (content w.cur_seg w.files ≡ some c) × (length c ≡ w.cur_offset)
  pub closed : w.cur_open ≡ false → All (λ fi. fi.seg < w.cur_seg) (pending w)

-- Removing a segment that holds no frame of the queue.
pub Holds-remove :
    (files : Files) (k : ℕ) (is : List FrameIndex) (q : Queue)
    → All (λ fi. k ≢ fi.seg) is
    → Holds files is q
    → Holds (remove k files) is q
unfolding frame_at
Holds-remove files k [] [] b h = tt
Holds-remove files k [] (x ∷ q) b h = h
Holds-remove files k (fi ∷ is) [] b h = h
Holds-remove files k (fi ∷ is) ((s, f) ∷ q) (l, b) (e, r, h) =
    (e, ground (arith, content-remove k fi.seg files), Holds-remove files k is q b h)

pub away_before :
    (k : ℕ) (is : List FrameIndex) → All (λ fi. fi.seg < k) is → All (λ fi. k ≢ fi.seg) is
away_before k [] h = tt
away_before k (fi ∷ is) (l, h) = ((λ e. absurd (omega (arith, l, e))), away_before k is h)

-- Every frame that can be read from `files` can be read from `files'`.
abbrev pub Extends : Files → Files → Type 0
Extends files files' =
    (fi : FrameIndex) (b : List ℕ) → frame_at files fi ≡ some b → frame_at files' fi ≡ some b

pub Holds-Extends :
    (files files' : Files) (is : List FrameIndex) (q : Queue)
    → Extends files files'
    → Holds files is q
    → Holds files' is q
Holds-Extends f f' [] [] ext h = tt
Holds-Extends f f' [] (x ∷ q) ext h = h
Holds-Extends f f' (fi ∷ is) [] ext h = h
Holds-Extends f f' (fi ∷ is) ((s, b) ∷ q) ext (e, r, h) =
    (e, ext fi b r, Holds-Extends f f' is q ext h)

pub Holds-snoc :
    (files : Files) (is : List FrameIndex) (q : Queue) (fi : FrameIndex) (s : ℕ) (b : List ℕ)
    → Holds files is q
    → fi.seq ≡ s
    → frame_at files fi ≡ some b
    → Holds files (is ++ (fi ∷ [])) (q ++ ((s, b) ∷ []))
Holds-snoc f [] [] fi s b h e r = (e, r, tt)
Holds-snoc f [] (x ∷ q) fi s b h e r = absurd h
Holds-snoc f (x ∷ is) [] fi s b h e r = absurd h
Holds-snoc f (x ∷ is) ((t, c) ∷ q) fi s b (e1, r1, h) e r = (e1, r1, Holds-snoc f is q fi s b h e r)

pub Ordered-snoc :
    (lo hi : ℕ) (is : List FrameIndex) (fi : FrameIndex)
    → Ordered lo hi is
    → fi.seg ≡ hi
    → Ordered lo hi (is ++ (fi ∷ []))
Ordered-snoc lo hi [] fi h e = (omega arith, omega arith)
Ordered-snoc lo hi (x ∷ is) fi (l, h) e = (l, Ordered-snoc x.seg hi is fi h e)

pub Ordered-up :
    (lo hi hi' : ℕ) (is : List FrameIndex) → hi ≤ hi' → Ordered lo hi is → Ordered lo hi' is
Ordered-up lo hi hi' [] le h = omega arith
Ordered-up lo hi hi' (x ∷ is) le (l, h) = (l, Ordered-up x.seg hi hi' is le h)

pub Numbered-snoc :
    (next : ℕ) (q : Queue) (b : List ℕ)
    → Numbered next q
    → Numbered (suc next) (q ++ ((next, b) ∷ []))
Numbered-snoc next [] b h = (omega arith, tt)
Numbered-snoc next ((s, c) ∷ q) b (e, h) =
    (omega (arith, length-append q ((next, b) ∷ [])), Numbered-snoc next q b h)

pub create-Extends : (k : ℕ) (files : Files) → Extends files (create k files)
unfolding frame_at
create-Extends k files fi b h = ground (arith, content-create k fi.seg files)

pub append_to-Extends :
    (k : ℕ) (more : List ℕ) (files : Files) → Extends files (append_to k more files)
unfolding frame_at
append_to-Extends k more files fi b h = elim (Option-cases (content fi.seg files)) [
  | inl missing ↦ absurd (ground (arith, missing))
  | inr (c, there) ↦
      let old : read_at (fi.offset + record_head_len) fi.length c ≡ some b =
        rw (there, frame_at) at h in
      ground (
        arith,
        there,
        old,
        content-append_to k fi.seg more files,
        read_at-append (fi.offset + record_head_len) fi.length c more old,
      )
]
