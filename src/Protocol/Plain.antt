-- ===== src/Protocol/Plain.antt =====
-- A compression that keeps its input, for the tests: it shows that the contract can be met.
use influx_sync.Base.{some, false, refl}
use influx_sync.Protocol.{Compression}
use influx_sync.Protocol.RoundTrip.{IsLossless}

abbrev pub plain : Compression
plain = record {
  gzip = λ x. some x;
  zstd = λ x. x;
  gunzip = λ z. some (record { bytes = z; failed = false });
  unzstd = λ z. some (record { bytes = z; failed = false });
}

pub plain-IsLossless : IsLossless plain
plain-IsLossless = record { gunzip-gzip = λ x z e. cc; unzstd-zstd = λ x. refl }
