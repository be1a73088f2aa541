-- ===== src/Wal/Writing.antt =====
-- internal/wal/wal.go, rotate, ensureSpace and appendEncodedLocked: a record is written behind the
-- frames that the log stands for.
use influx_sync.Base.{
  ℕ, ◌+◌, ◌%◌, ◌^◌, ◌<◌, ◌≡◌, refl, sym, ◌∙◌, true, false, some, List, [], ◌∷◌, ◌++◌, leb, length,
  drop, arith, Bool-cases, Option-cases, length-append, drop-append_le, inl, inr, append-nil,
}
use mathlib.Core.Path.{subst}
use mathlib.Core.Bool.{false≢true}
use influx_sync.Bytes.{put_uint, length-put_uint}
use influx_sync.Wal.{Wal, FrameIndex, record_head_len, rotate, ensure_space, write_record}
use influx_sync.Wal.Reading.{frame_at}
use influx_sync.Wal.Segments.{
  content, create, append_to, read_at, content-create, content-append_to, read_at-record,
}
use influx_sync.Wal.Queue.{
  Queue, Numbered, pending, Stands, Represents, Holds-Extends, Holds-snoc, Ordered-snoc, Ordered-up,
  Numbered-snoc, create-Extends, append_to-Extends,
}

rotate-Represents :
    (w : Wal) (q : Queue) → Stands w q → Represents (rotate w) q × ((rotate w).cur_open ≡ true)
unfolding rotate
rotate-Represents w q r = (
  record {
    stands = record {
      holds =
          Holds-Extends w.files (create w.cur_seg w.files) (pending w) q
            (create-Extends w.cur_seg w.files) r.holds;
      ordered = r.ordered;
      numbered = r.numbered;
      acked_fits = r.acked_fits;
    };
    open_file = λ _. elim (Option-cases (content w.cur_seg (create w.cur_seg w.files))) [
      | inl missing ↦ absurd (ground (arith, missing, content-create w.cur_seg w.cur_seg w.files))
      | inr (c, there) ↦ (c, there, rw (there, rotate) refl)
    ];
    closed = λ shut. absurd (false≢true (sym shut));
  },
  refl,
)

ensure_space_full :
    (w : Wal) (need : ℕ)
    → w.cur_open ≡ true
    → leb (w.cur_offset + need) w.seg_size ≡ false
    → ensure_space w need ≡ rotate (record w { cur_seg = w.cur_seg + 1 })
unfolding ensure_space
ensure_space_full w need ready full = ground arith

-- Room for one more record: the current segment is open, and the queue is the same.
pub ensure_space-Represents :
    (w : Wal) (need : ℕ) (q : Queue)
    → Represents w q
    → let w' = ensure_space w need in Represents w' q × (w'.cur_open ≡ true) × (w'.cp ≡ w.cp)
unfolding ensure_space
ensure_space-Represents w need q r = elim (Bool-cases w.cur_open) [
  | inr shut ↦
      let (r', o) = rotate-Represents w q r.stands in simp shut (r', o, unfold rotate in refl)
  | inl ready ↦ elim (Bool-cases (leb (w.cur_offset + need) w.seg_size)) [
    | inl fits ↦ simp (ready, fits) (r, refl, refl)
    | inr full ↦
        let w1 : Wal = record w { cur_seg = w.cur_seg + 1 } in
        let next : Stands w1 q = record {
          holds = r.holds;
          ordered =
              Ordered-up w.cp.seg_start w.cur_seg (w.cur_seg + 1) (pending w) (omega arith)
                r.ordered;
          numbered = r.numbered;
          acked_fits = r.acked_fits;
        } in
        let (r', o) = rotate-Represents w1 q next in
        rw (ensure_space_full w need ready full) (r', o, unfold rotate in refl)
  ]
]

read_back :
    (c head frame : List ℕ) (off : ℕ)
    → length c ≡ off
    → length head ≡ record_head_len
    → read_at (off + record_head_len) (length frame) (c ++ (head ++ frame)) ≡ some frame
read_back c head frame off e eh =
    let there : read_at (length c + length head) (length frame) (c ++ (head ++ frame))
        ≡ some frame =
      rw append-nil at (read_at-record c head frame []) in
    let at : off + record_head_len ≡ length c + length head = omega arith in rw at there

pub write_record-Represents :
    (w : Wal) (typ : ℕ) (frame : List ℕ) (q : Queue)
    → Represents w q
    → w.cur_open ≡ true
    → w.cp.next_seq + 1 < 2 ^ 64
    → Represents (write_record w typ w.cp.next_seq frame) (q ++ ((w.cp.next_seq, frame) ∷ []))
unfolding write_record frame_at
write_record-Represents w typ frame q r ready room =
    let (c, there, end) = r.open_file ready in
    let head = put_uint 4 (length frame % 2 ^ 32) in
    let more = head ++ frame in
    let files' = append_to w.cur_seg more w.files in
    let fi : FrameIndex = record {
      seg = w.cur_seg;
      offset = w.cur_offset;
      length = length frame;
      seq = w.cp.next_seq;
      typ = typ;
    } in
    let now : content w.cur_seg files' ≡ some (c ++ more) =
      ground (arith, there, content-append_to w.cur_seg w.cur_seg more w.files) in
    let reads : frame_at files' fi ≡ some frame =
      rw (now, frame_at) (read_back c head frame w.cur_offset end (length-put_uint 4 _)) in
    let split : drop w.acked (w.index ++ (fi ∷ [])) ≡ pending w ++ (fi ∷ []) =
      drop-append_le w.acked w.index (fi ∷ []) r.acked_fits in
    record {
      stands = record {
        holds = rw split (
            Holds-snoc files' (pending w) q fi w.cp.next_seq frame
              (Holds-Extends w.files files' (pending w) q (append_to-Extends w.cur_seg more w.files)
                r.holds)
              refl reads);
        ordered = rw split (Ordered-snoc w.cp.seg_start w.cur_seg (pending w) fi r.ordered refl);
        numbered =
            subst (λ (n : ℕ). Numbered n (q ++ ((w.cp.next_seq, frame) ∷ []))) (omega arith)
              (Numbered-snoc w.cp.next_seq q frame r.numbered);
        acked_fits = omega (arith, length-append w.index (fi ∷ []), r.acked_fits);
      };
      open_file = λ _. (
        c ++ more,
        now,
        omega (
          arith,
          length-append c more,
          length-append head frame,
          length-put_uint 4 (length frame % 2 ^ 32),
        ),
      );
      closed = λ shut. absurd (false≢true (sym shut ∙ ready));
    }
