-- ===== src/SeqTracker/Runs.antt =====
-- Tests of the tracker, and its theorems at concrete inputs.
use influx_sync.Base.{
  ℕ, ◌<◌, ◌↔◌, ◌≤◌, ◌≡◌, refl, true, false, [], ◌∷◌, arith, add64, has, insert, delete, delete_upto,
}
use influx_sync.SeqTracker.{SeqTracker, init, close_gap, advance, advance_one, drop_overflow, done}
use influx_sync.SeqTracker.Prefix.{IsTracking, done-IsTracking, close_gap-IsTracking}
use influx_sync.SeqTracker.Stopping.{done_stops, done_advanced}

-- Frame 12 ended before frame 11.
abbrev waiting : SeqTracker
waiting = record { last = 10; pending = 12 ∷ [] }

fills : done waiting 11 ≡ (record { last = 12; pending = [] }, true)
unfolding done advance advance_one drop_overflow has insert delete
fills = refl

waits : done (init 10) 12 ≡ (waiting, false)
unfolding done advance drop_overflow has insert init
waits = refl

jumps : done waiting 200000 ≡ (record { last = 200000; pending = [] }, true)
unfolding done
jumps = refl

closes : close_gap waiting 11 ≡ record { last = 11; pending = 12 ∷ [] }
unfolding close_gap delete_upto
closes = refl

-- The frames 11 and 12 are done.
abbrev IsDone : ℕ → Type 0
IsDone s = (11 ≤ s) × (s ≤ 12)

only_twelve : (s : ℕ) → has s (12 ∷ []) ≡ true → s ≡ 12
unfolding has
only_twelve s h = ground arith

waiting-IsTracking : IsTracking IsDone 10 waiting
waiting-IsTracking = record {
  last_fits = omega arith;
  above = λ s h. omega (arith, only_twelve s h);
  fits = λ s h. omega (arith, only_twelve s h);
  covered = λ s lo hi. absurd (omega arith);
  held = λ s h. omega (arith, only_twelve s h);
}

done-IsTracking_example : IsTracking IsDone 10 (done waiting 11).0
done-IsTracking_example =
    done-IsTracking waiting 11 waiting-IsTracking (omega arith) (omega arith) (omega arith)

eleven_missing : has (add64 10 1) (12 ∷ []) ≡ false
unfolding has
eleven_missing = refl

done_stops_example : has (add64 (done waiting 11).0.last 1) (done waiting 11).0.pending ≡ false
done_stops_example = done_stops waiting 11 eleven_missing

done_advanced_example :
    (waiting.last ≤ (done waiting 11).0.last)
    × (((done waiting 11).1 ≡ true) ↔ (waiting.last < (done waiting 11).0.last))
done_advanced_example =
    done_advanced waiting 11 waiting-IsTracking (omega arith) (omega arith) (omega arith)

close_gap-IsTracking_example : IsTracking IsDone 10 (close_gap waiting 11)
close_gap-IsTracking_example =
    close_gap-IsTracking waiting 11 waiting-IsTracking (omega arith) (λ s lo hi. omega arith)
