-- ===== src/Crc.antt =====
-- hash/crc32's ChecksumIEEE, as internal/protocol uses it: the reflected CRC-32, a bit at a time.
use Prim.Native.Nat.{bit_and, bit_xor}
use influx_sync.Base.{
  ℕ, zero, suc, ◌/◌, ◌%◌, ◌^◌, ◌≡◌, refl, List, [], ◌∷◌, arith, ◌==◌, if◌then◌else◌, IsU32,
}

crc_bits : ℕ → ℕ → ℕ
crc_bits zero c = c
crc_bits (suc n) c = crc_bits n (if bit_and c 1 == 1 then bit_xor (c / 2) 0xedb8_8320 else c / 2)

crc_bytes : ℕ → List ℕ → ℕ
crc_bytes c [] = c
crc_bytes c (b ∷ bs) = crc_bytes (crc_bits 8 (bit_xor c b)) bs

unfoldable pub checksum_ieee : List ℕ → ℕ
unfolding crc_bits crc_bytes
checksum_ieee bs = bit_xor (crc_bytes 0xffff_ffff bs) 0xffff_ffff % 2 ^ 32

pub checksum_ieee-IsU32 : (bs : List ℕ) → IsU32 (checksum_ieee bs)
unfolding checksum_ieee
checksum_ieee-IsU32 bs = omega arith

-- The check value of the algorithm, of the text 123456789.
check_value :
    checksum_ieee (0x31 ∷ 0x32 ∷ 0x33 ∷ 0x34 ∷ 0x35 ∷ 0x36 ∷ 0x37 ∷ 0x38 ∷ 0x39 ∷ []) ≡ 0xcbf4_3926
unfolding checksum_ieee
check_value = refl
