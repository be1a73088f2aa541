-- ===== src/Receiver/History.antt =====
-- internal/receiver/receiver.go: the frames of a run, one after the other, and what a first frame of
-- a connection that is no first frame does.
use influx_sync.Base.{ℕ, ◌+◌, ◌^◌, ◌≤◌, ◌<◌, ◌≡◌, refl, true, false, List, arith, ok, err, has}
use mathlib.Core.Bool.{false≢true}
use influx_sync.Protocol.{Error, Compression, Frame, is_heartbeat, decode}
use influx_sync.SeqTracker.{seq_jump_limit, init}
use influx_sync.Receiver.{Config, Env, Receiver, new_receiver, handle_frame}
use influx_sync.Receiver.Served.{is_kept, IsServing, Vouched}
use influx_sync.Receiver.Delivery.{handle_frame-IsServing}

pub new_receiver-IsServing : (seq : ℕ) → seq < 2 ^ 62 → IsServing seq (new_receiver seq)
unfolding new_receiver init has
new_receiver-IsServing seq h = record {
  tracking = record {
    last_fits = omega arith;
    above = λ s m. absurd (false≢true m);
    fits = λ s m. absurd (false≢true m);
    covered = λ s lo hi. absurd (omega arith);
    held = λ s m. absurd (false≢true m);
  };
  agree = refl;
  base_fits = h;
  started = omega arith;
}

module _ (c : Compression) (cfg : Config) (base : ℕ) where
  -- The conditions on one frame of a run: its number is past what the receiver started from and no
  -- jump, and where it is a connection's first frame the frames missing before it are kept.
  pub record Fair (env : Env) (frame_idx : ℕ) (r : Receiver) (f : Frame) : Type 0 where
    pub past : base < f.seq
    pub small : f.seq < 2 ^ 62
    pub near : f.seq ≤ r.last_seq + seq_jump_limit
    pub vouched : Vouched cfg env frame_idx r f.seq

  -- What one call of HandleFrame can be given.
  pub data Step : Receiver → Receiver → Type 0 where
    bad_frame :
        (env : Env) (frame_idx : ℕ) (r : Receiver) (bytes : List ℕ) (e : Error)
        → decode bytes ≡ err e
        → Step r (handle_frame c cfg env frame_idx r bytes).0
    heartbeat :
        (env : Env) (frame_idx : ℕ) (r : Receiver) (bytes : List ℕ) (f : Frame)
        → decode bytes ≡ ok f
        → is_heartbeat f ≡ true
        → Step r (handle_frame c cfg env frame_idx r bytes).0
    data_frame :
        (env : Env) (frame_idx : ℕ) (r : Receiver) (bytes : List ℕ) (f : Frame)
        → decode bytes ≡ ok f
        → is_heartbeat f ≡ false
        → Fair env frame_idx r f
        → Step r (handle_frame c cfg env frame_idx r bytes).0

  pub data Reach : Receiver → Type 0 where
    start : Reach (new_receiver base)
    next : {r r' : Receiver} → Reach r → Step r r' → Reach r'

  Step-IsServing : {r r' : Receiver} → Step r r' → IsServing base r → IsServing base r'
  unfolding handle_frame
  Step-IsServing (bad_frame env frame_idx r bytes e bad) s = rw bad s
  Step-IsServing (heartbeat env frame_idx r bytes f dec beat) s = rw (dec, beat) s
  Step-IsServing (data_frame env frame_idx r bytes f dec not_beat fair) s =
      unfold handle_frame in
      (handle_frame-IsServing c cfg env frame_idx r bytes f s dec not_beat fair.past fair.small
        fair.near fair.vouched).0

  Reach-IsServing : {r : Receiver} → base < 2 ^ 62 → Reach r → IsServing base r
  Reach-IsServing h start = new_receiver-IsServing base h
  Reach-IsServing h (next before step) = Step-IsServing step (Reach-IsServing h before)

-- After any calls of HandleFrame, broken frames and heartbeats among them, every number between the
-- restored last_seq and the present one is in InfluxDB or in the dead-letter directory.
pub Reach-kept :
    (c : Compression) (cfg : Config) (base : ℕ) (r : Receiver)
    → base < 2 ^ 62
    → Reach c cfg base r
    → (s : ℕ) → base < s
    → s ≤ r.last_seq
    → is_kept s r ≡ true
Reach-kept c cfg base r h reach s lo hi =
    let serving = Reach-IsServing c cfg base h reach in
    (serving.tracking.covered s lo (omega (arith, serving.agree))).0
