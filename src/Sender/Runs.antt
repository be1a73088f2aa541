-- ===== src/Sender/Runs.antt =====
-- Tests of the sender, and its theorems at concrete inputs.
use influx_sync.Base.{◌≡◌, refl}
use influx_sync.Sender.{SenderConfig, with_defaults, or_default, backoff, doubled}

abbrev cfg : SenderConfig
cfg = record {
  max_retry = 0;
  backoff_base = 0;
  backoff_max = 0;
  heartbeat_interval = 0;
  idle_sleep = 0;
  pipeline = 0;
}

abbrev full : SenderConfig
full = record {
  max_retry = 10;
  backoff_base = 1000000000;
  backoff_max = 60000000000;
  heartbeat_interval = 30000000000;
  idle_sleep = 200000000;
  pipeline = 1;
}

defaults : with_defaults cfg ≡ full
unfolding with_defaults or_default
defaults = refl

-- 1s, 2s, 4s and so on, and then 60s.
fourth_pause : backoff full 4 ≡ 8000000000
unfolding backoff doubled
fourth_pause = refl

seventh_pause : backoff full 7 ≡ 60000000000
unfolding backoff doubled
seventh_pause = refl
