-- ===== src/Wal/Appending.antt =====
-- internal/wal/wal.go: AppendEncoded, Append, AppendBatch, PeekBatch and Peek on the queue that the
-- log stands for.
use influx_sync.Base.{
  ne→==, err, refl, ℕ, zero, suc, ◌+◌, ◌^◌, ◌≤◌, ◌<◌, ◌≡◌, ◌≢◌, refl, ap, ◌∙◌, List, [], ◌∷◌, ◌++◌,
  ==_refl, length, get_or, take, arith, Result, ok, err, Bool-cases, append_assoc, inl, inr,
  append-nil, All, ge→ltb, gt→leb, length-drop, le→leb, lt→ltb,
}
use mathlib.Core.Path.{subst}
use influx_sync.Protocol.{header_size}
use influx_sync.Wal.{
  Wal, FrameIndex, WalError, record_head_len, ensure_space, write_record, notify_append,
  append_encoded, append_one, append_frames, batch_done, append_batch, set_seq, empty,
  out_of_order_append,
}
use influx_sync.Wal.Reading.{readable, read_frames, peek_batch, first_frame, peek}
use influx_sync.Wal.Segments.{Files}
use influx_sync.Wal.Queue.{Queue, Holds, Holds-remove, away_before, pending, Represents}
use influx_sync.Wal.Writing.{ensure_space-Represents, write_record-Represents}

-- Room is made and one record is written, under the next number.
put-Represents :
    (w : Wal) (typ need : ℕ) (frame : List ℕ) (q : Queue)
    → Represents w q
    → w.cp.next_seq + 1 < 2 ^ 64
    → Represents
        (write_record (ensure_space w need) typ w.cp.next_seq frame)
        (q ++ ((w.cp.next_seq, frame) ∷ []))
put-Represents w typ need frame q r room =
    let (r', o, same) = ensure_space-Represents w need q r in
    let next : (ensure_space w need).cp.next_seq ≡ w.cp.next_seq = ap (λ c. c.next_seq) same in
    subst
      (λ n. Represents (write_record (ensure_space w need) typ n frame) (q ++ ((n, frame) ∷ [])))
      next (write_record-Represents (ensure_space w need) typ frame q r' o (omega arith))

notify-Represents : (w : Wal) (q : Queue) → Represents w q → Represents (notify_append w) q
unfolding notify_append
notify-Represents w q r = record {
  stands = record {
    holds = r.holds;
    ordered = r.ordered;
    numbered = r.numbered;
    acked_fits = r.acked_fits;
  };
  open_file = r.open_file;
  closed = r.closed;
}

-- AppendEncoded puts the frame at the end of the queue and answers no error if its number is the next
-- one, and there is a number behind it. Otherwise it answers the error that names both numbers, and
-- changes nothing.
pub append_encoded-Represents :
    (w : Wal) (typ seq : ℕ) (frame : List ℕ) (q : Queue)
    → Represents w q
    → w.cp.next_seq + 1 < 2 ^ 64
    → (seq ≡ w.cp.next_seq
        → let p = append_encoded w typ seq frame in
          (p.1 ≡ ok tt) × Represents p.0 (q ++ ((seq, frame) ∷ [])))
      × (seq ≢ w.cp.next_seq
          → append_encoded w typ seq frame ≡ (w, err (out_of_order_append seq w.cp.next_seq)))
unfolding append_encoded
append_encoded-Represents w typ seq frame q r room = (
  λ e.
      rw (e, ==_refl w.cp.next_seq)
        (
          refl,
          notify-Represents _ _
              (put-Represents w typ (length frame + record_head_len) frame q r room),
        ),
  λ ne. rw (ne→== seq w.cp.next_seq ne) refl,
)

-- The frames of a batch under consecutive numbers from `next` on.
abbrev pub stamped : ℕ → List (List ℕ) → Queue
stamped next [] = []
stamped next (frame ∷ rest) = (next, set_seq next frame) ∷ stamped (next + 1) rest

abbrev pub numbers : ℕ → List (List ℕ) → List ℕ
numbers next [] = []
numbers next (frame ∷ rest) = next ∷ numbers (next + 1) rest

append_one-Represents :
    (w : Wal) (frame : List ℕ) (q : Queue)
    → Represents w q
    → w.cp.next_seq + 1 < 2 ^ 64
    → Represents (append_one w frame) (q ++ ((w.cp.next_seq, set_seq w.cp.next_seq frame) ∷ []))
      × ((append_one w frame).cp.next_seq ≡ w.cp.next_seq + 1)
unfolding append_one write_record
append_one-Represents w frame q r room =
    let need = length frame + record_head_len in
    let (r', o, same) = ensure_space-Represents w need q r in
    let next : (ensure_space w need).cp.next_seq ≡ w.cp.next_seq = ap (λ c. c.next_seq) same in
    (
      subst (λ n. Represents (append_one w frame) (q ++ ((n, set_seq n frame) ∷ []))) next
          (write_record-Represents (ensure_space w need) (get_or frame 3 0) _ q r' o (omega arith)),
      omega arith,
    )

append_frames-Represents :
    (w : Wal) (seqs : List ℕ) (frames : List (List ℕ)) (q : Queue)
    → Represents w q
    → w.cp.next_seq + length frames < 2 ^ 64
    → All (λ frame. header_size ≤ length frame) frames
    → let p = append_frames w seqs frames in
      Represents p.0 (q ++ stamped w.cp.next_seq frames)
      × (p.1 ≡ ok (seqs ++ numbers w.cp.next_seq frames))
unfolding append_frames
append_frames-Represents w seqs [] q r room long = rw (append-nil, append-nil) (r, refl)
append_frames-Represents w seqs (frame ∷ rest) q r room (long, longs) =
    let (r', next) = append_one-Represents w frame q r (omega arith) in
    let now = w.cp.next_seq in
    let (rs, ss) =
      append_frames-Represents (append_one w frame) (seqs ++ (now ∷ [])) rest
        (q ++ ((now, set_seq now frame) ∷ [])) r' (omega arith) longs in
    let regroup : (q ++ ((now, set_seq now frame) ∷ []))
          ++ stamped (append_one w frame).cp.next_seq rest
        ≡ q ++ stamped now (frame ∷ rest) =
      rw next (append_assoc q ((now, set_seq now frame) ∷ []) (stamped (now + 1) rest)) in
    let regroup' : (seqs ++ (now ∷ [])) ++ numbers (append_one w frame).cp.next_seq rest
        ≡ seqs ++ numbers now (frame ∷ rest) =
      rw next (append_assoc seqs (now ∷ []) (numbers (now + 1) rest)) in
    rw (ge→ltb (length frame) header_size long) (
      subst (λ t. Represents (append_frames (append_one w frame) (seqs ++ (now ∷ [])) rest).0 t)
          regroup rs,
      ss ∙ ap ok regroup',
    )

-- AppendBatch of frames that are long enough puts them at the end of the queue in order, each under
-- the next number and with that number written into its header, and returns the numbers.
pub append_batch-Represents :
    (w : Wal) (frames : List (List ℕ)) (q : Queue)
    → Represents w q
    → w.cp.next_seq + length frames < 2 ^ 64
    → All (λ frame. header_size ≤ length frame) frames
    → let p = append_batch w frames in
      Represents p.0 (q ++ stamped w.cp.next_seq frames) × (p.1 ≡ ok (numbers w.cp.next_seq frames))
unfolding append_batch
append_batch-Represents w [] q r room long = rw append-nil (r, refl)
append_batch-Represents w (frame ∷ rest) q r room long =
    let p = append_frames w [] (frame ∷ rest) in
    let (rs, ss) = append_frames-Represents w [] (frame ∷ rest) q r room long in
    let whole : batch_done p ≡ (notify_append p.0, ok (numbers w.cp.next_seq (frame ∷ rest))) =
      unfold batch_done in ap (λ t. batch_done (p.0, t)) ss in
    rw whole (notify-Represents p.0 _ rs, refl)

-- The index, read back frame by frame, is the queue.
read_frames-Holds :
    (files : Files) (is : List FrameIndex) (q : Queue)
    → Holds files is q
    → read_frames files is ≡ ok q
unfolding read_frames
read_frames-Holds files [] [] h = refl
read_frames-Holds files [] (x ∷ q) h = absurd h
read_frames-Holds files (fi ∷ is) [] h = absurd h
read_frames-Holds files (fi ∷ is) ((s, b) ∷ q) (e, r, h) = rw (r, read_frames-Holds files is q h, e)

Holds-take :
    (files : Files) (n : ℕ) (is : List FrameIndex) (q : Queue)
    → Holds files is q
    → Holds files (take n is) (take n q)
Holds-take files zero is q h = tt
Holds-take files (suc n) [] [] h = tt
Holds-take files (suc n) [] (x ∷ q) h = h
Holds-take files (suc n) (fi ∷ is) [] h = h
Holds-take files (suc n) (fi ∷ is) ((s, b) ∷ q) (e, r, h) = (e, r, Holds-take files n is q h)

pub length-Holds :
    (files : Files) (is : List FrameIndex) (q : Queue) → Holds files is q → length is ≡ length q
length-Holds files [] [] h = refl
length-Holds files [] (x ∷ q) h = absurd h
length-Holds files (fi ∷ is) [] h = absurd h
length-Holds files (fi ∷ is) ((s, b) ∷ q) (e, r, h) = ap suc (length-Holds files is q h)

-- What PeekBatch can read holds the queue.
readable-Holds : (w : Wal) (q : Queue) → Represents w q → Holds (readable w) (pending w) q
unfolding readable
readable-Holds w q r = elim (Bool-cases w.cur_open) [
  | inl ready ↦ simp ready r.holds
  | inr shut ↦ simp shut (
      Holds-remove w.files w.cur_seg (pending w) q
        (away_before w.cur_seg (pending w) (r.closed shut)) r.holds)
]

-- What PeekBatch should answer: the oldest `n` of the queue, all of it for no `n`, or that it is
-- empty.
abbrev pub oldest : ℕ → Queue → Result WalError Queue
oldest n [] = err empty
oldest zero (x ∷ q) = ok (x ∷ q)
oldest (suc n) (x ∷ q) = ok (take (suc n) (x ∷ q))

-- PeekBatch reads the oldest frames of the queue back, byte for byte, or answers that it is empty.
pub peek_batch-oldest : (w : Wal) (n : ℕ) (q : Queue) → Represents w q → peek_batch w n ≡ oldest n q
unfolding peek_batch
peek_batch-oldest w n [] r =
    let none_left : length (pending w) ≡ 0 = length-Holds w.files (pending w) [] r.holds in
    rw (le→leb (length w.index) w.acked (omega (arith, length-drop w.acked w.index)))
peek_batch-oldest w zero (x ∷ q) r =
    let some_left = length-Holds w.files (pending w) (x ∷ q) r.holds in
    rw (gt→leb (length w.index) w.acked (omega (arith, length-drop w.acked w.index)))
      (read_frames-Holds (readable w) (pending w) (x ∷ q) (readable-Holds w (x ∷ q) r))
peek_batch-oldest w (suc n) (x ∷ q) r =
    let some_left = length-Holds w.files (pending w) (x ∷ q) r.holds in
    rw
      (
        gt→leb (length w.index) w.acked (omega (arith, length-drop w.acked w.index)),
        lt→ltb 0 (suc n) (omega arith),
      )
      (read_frames-Holds (readable w) (take (suc n) (pending w)) (take (suc n) (x ∷ q))
        (Holds-take (readable w) (suc n) (pending w) (x ∷ q) (readable-Holds w (x ∷ q) r)))

-- Peek answers the head of the queue.
pub peek-head :
    (w : Wal) (s : ℕ) (b : List ℕ) (q : Queue) → Represents w ((s, b) ∷ q) → peek w ≡ ok (s, b)
unfolding peek
peek-head w s b q r = rw (peek_batch-oldest w 1 ((s, b) ∷ q) r)

pub peek_empty : (w : Wal) → Represents w [] → peek w ≡ err empty
unfolding peek first_frame
peek_empty w r = rw (peek_batch-oldest w 1 [] r)
