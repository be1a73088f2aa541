-- ===== src/Sender/Framing/Holding.antt =====
-- internal/sender/poller.go, appendGood: the frames that a log took, and the points they are of.
use influx_sync.Base.{
  ℕ, suc, ◌+◌, ◌^◌, ◌≤◌, ◌<◌, ◌≡◌, refl, sym, ap, ◌∙◌, true, List, [], ◌∷◌, ◌++◌, length, Result,
  ok, err, arith, All, append_assoc, append-nil, length-append, Result-cases, inl, inr, err≢ok,
  ok-injective,
}
use mathlib.Core.Path.{subst}
use influx_sync.Crc.{checksum_ieee}
use influx_sync.Protocol.{Compression, encode, header_size}
use influx_sync.Protocol.RoundTrip.{encode_ok}
use influx_sync.Protocol.RawFrames.{length-encode_raw}
use influx_sync.Wal.{Wal, WalError, append_batch, set_seq}
use influx_sync.Wal.Queue.{Queue, Represents}
use influx_sync.Wal.Batches.{append_batch-next_seq, append_batch-cursor}
use influx_sync.Wal.Appending.{stamped, append_batch-Represents}
use influx_sync.Model.Rendering.{RenderError, Point, lines_to_protocol_bytes}
use influx_sync.Sender.Framing.{
  FrameError, is_frame_too_large, coded, encoded_payload, encode_points, good_done, append_good,
  and_then,
}

-- Frames of the points in their order. A point that is too large alone is left out.
pub data Framed (c : Compression) (typ : ℕ) : List Point → List (List ℕ) → Type 0 where
  no_points : Framed c typ [] []
  framed :
      (g rest : List Point) (fb : List ℕ) (fs : List (List ℕ))
      → encode_points c typ g ≡ ok fb
      → Framed c typ rest fs
      → Framed c typ (g ++ rest) (fb ∷ fs)
  left_out :
      (p : Point) (rest : List Point) (e : FrameError) (fs : List (List ℕ))
      → encode_points c typ (p ∷ []) ≡ err e
      → is_frame_too_large e ≡ true
      → Framed c typ rest fs
      → Framed c typ (p ∷ rest) fs

pub Framed-append :
    (c : Compression) (typ : ℕ) (ps qs : List Point) (fs gs : List (List ℕ))
    → Framed c typ ps fs
    → Framed c typ qs gs
    → Framed c typ (ps ++ qs) (fs ++ gs)
Framed-append c typ ps qs fs gs no_points k = k
Framed-append c typ ps qs fs gs (framed g rest fb fs' e h) k =
    subst (λ t. Framed c typ t (fb ∷ (fs' ++ gs))) (sym (append_assoc g rest qs))
      (framed g (rest ++ qs) fb (fs' ++ gs) e (Framed-append c typ rest qs fs' gs h k))
Framed-append c typ ps qs fs gs (left_out p rest e fs' r t h) k =
    left_out p (rest ++ qs) e (fs' ++ gs) r t (Framed-append c typ rest qs fs' gs h k)

pub stamped-append :
    (n : ℕ) (xs ys : List (List ℕ))
    → stamped n (xs ++ ys) ≡ stamped n xs ++ stamped (n + length xs) ys
stamped-append n [] ys = ap (λ t. stamped t ys) (omega arith)
stamped-append n (x ∷ xs) ys =
    let next : n + 1 + length xs ≡ n + suc (length xs) = omega arith in
    ap (λ t. (n, set_seq n x) ∷ t)
      (stamped-append (n + 1) xs ys ∙ ap (λ t. stamped (n + 1) xs ++ stamped t ys) next)

encode-long :
    (c : Compression) (typ : ℕ) (payload fb : List ℕ)
    → encode c typ 0 payload ≡ ok fb
    → header_size ≤ length fb
encode-long c typ payload fb e =
    let (z, layout, _, _) = encode_ok c typ 0 payload fb e in
    omega (arith, ap length layout, length-encode_raw typ 0 z (checksum_ieee z))

encoded_payload-long :
    (c : Compression) (typ : ℕ) (r : Result RenderError (List ℕ)) (fb : List ℕ)
    → encoded_payload c typ r ≡ ok fb
    → header_size ≤ length fb
unfolding encoded_payload coded
encoded_payload-long c typ (err e) fb h = absurd (err≢ok _ _ h)
encoded_payload-long c typ (ok payload) fb h = elim (Result-cases (encode c typ 0 payload)) [
  | inl (fb', e) ↦
      let same : fb' ≡ fb = ok-injective _ _ (sym (ap coded e) ∙ h) in
      subst (λ t. header_size ≤ length t) same (encode-long c typ payload fb' e)
  | inr (x, e) ↦ absurd (err≢ok _ _ (sym (ap coded e) ∙ h))
]

pub encode_points-long :
    (c : Compression) (typ : ℕ) (ps : List Point) (fb : List ℕ)
    → encode_points c typ ps ≡ ok fb
    → header_size ≤ length fb
unfolding encode_points
encode_points-long c typ ps fb e = encoded_payload-long c _ (lines_to_protocol_bytes ps) fb e

-- What `w` became: the frames `fs` are at the end of its queue.
pub record Holds (w w' : Wal) (q : Queue) (fs : List (List ℕ)) : Type 0 where
  pub queue : Represents w' (q ++ stamped w.cp.next_seq fs)
  pub next : w'.cp.next_seq ≡ w.cp.next_seq + length fs
  pub cursor : w'.cp.cursor_ns ≡ w.cp.cursor_ns

good_done_ok :
    (p : Wal × Result WalError (List ℕ)) (w' : Wal)
    → good_done p ≡ (w', ok tt)
    → (seqs : List ℕ) × (p ≡ (w', ok seqs))
unfolding good_done
good_done_ok (v, ok seqs) w' e = (seqs, ap (λ t. (t.0, ok seqs)) e)
good_done_ok (v, err x) w' e = absurd (err≢ok _ _ (ap (λ p. p.1) e))

pub append_good-Holds :
    (w w' : Wal) (q : Queue) (good : List (List ℕ))
    → Represents w q
    → w.cp.next_seq + length good < 2 ^ 64
    → All (λ fb. header_size ≤ length fb) good
    → append_good w good ≡ (w', ok tt)
    → Holds w w' q good
unfolding append_good
append_good-Holds w w' q [] r room long e =
    let same : w ≡ w' = ap (λ p. p.0) e in
    subst (λ v. Holds w v q []) same
      (record {
        queue = subst (λ t. Represents w t) (sym (append-nil q)) r;
        next = omega arith;
        cursor = refl;
      })
append_good-Holds w w' q (fb ∷ good) r room long e =
    let (rs, accepted) = append_batch-Represents w (fb ∷ good) q r room long in
    let p : Wal × Result WalError (List ℕ) = append_batch w (fb ∷ good) in
    let (seqs, done) = good_done_ok p w' e in
    record {
      queue = subst (λ v. Represents v.0 (q ++ stamped w.cp.next_seq (fb ∷ good))) done rs;
      next = append_batch-next_seq w w' seqs (fb ∷ good) room done;
      cursor =
          ap (λ (v : Wal × Result WalError (List ℕ)). v.0.cp.cursor_ns) (sym done)
          ∙ append_batch-cursor w (fb ∷ good);
    }

-- `w'` is `w` with the frames `good` and then frames of the points `ps` at the end of its queue.
pub record Appends (c : Compression) (typ : ℕ) (w w' : Wal) (q : Queue) (good : List (List ℕ))
    (ps : List Point) : Type 0 where
  pub more : List (List ℕ)
  pub of_points : Framed c typ ps more
  pub held : Holds w w' q (good ++ more)
  pub few : length more ≤ length ps

abbrev pub Splits :
    Compression → ℕ → (Wal → List Point → Wal × Result FrameError (Unit {0})) → Type 0
Splits c typ split =
    (w w' : Wal) (q : Queue) (g : List Point)
    → Represents w q
    → w.cp.next_seq + length g < 2 ^ 64
    → split w g ≡ (w', ok tt)
    → Appends c typ w w' q [] g

abbrev pub Fits : ℕ → List Point → Type 0
Fits batch g = (0 < length g) × (length g ≤ batch)

abbrev pub flat : List (List Point) → List Point
flat [] = []
flat (g ∷ gs) = g ++ flat gs

pub and_then_ok :
    (p : Wal × Result FrameError (Unit {0})) (next : Wal → Wal × Result FrameError (Unit {0}))
    (w' : Wal)
    → and_then p next ≡ (w', ok tt)
    → (v : Wal) × (p ≡ (v, ok tt)) × (next v ≡ (w', ok tt))
unfolding and_then
and_then_ok (v, ok u) next w' e = (v, refl, e)
and_then_ok (v, err x) next w' e = absurd (err≢ok _ _ (ap (λ p. p.1) e))

pub Holds-append :
    (w v w' : Wal) (q : Queue) (fs gs : List (List ℕ))
    → Holds w v q fs
    → Holds v w' (q ++ stamped w.cp.next_seq fs) gs
    → Holds w w' q (fs ++ gs)
Holds-append w v w' q fs gs h k =
    let same : (q ++ stamped w.cp.next_seq fs) ++ stamped v.cp.next_seq gs
        ≡ q ++ stamped w.cp.next_seq (fs ++ gs) =
      ap (λ (n : ℕ). (q ++ stamped w.cp.next_seq fs) ++ stamped n gs) h.next
      ∙ append_assoc q _ _
      ∙ ap (λ t. q ++ t) (sym (stamped-append w.cp.next_seq fs gs)) in
    record {
      queue = subst (λ t. Represents w' t) same k.queue;
      next = omega (arith, k.next, h.next, length-append fs gs);
      cursor = k.cursor ∙ h.cursor;
    }

pub one_point : (g : List Point) → Fits 1 g → (p : Point) × (g ≡ p ∷ [])
one_point [] (some_point, single) = absurd (omega arith)
one_point (p ∷ []) h = (p, refl)
one_point (p ∷ (p' ∷ ps)) (some_point, single) = absurd (omega arith)

abbrev pub Outcome : Type 0
Outcome = Wal × Result FrameError (Unit {0})
