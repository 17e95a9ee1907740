-- ===== src/Inflate/Reader.antt =====
-- The bit reader of tools/armrecomp/inflate.c. `src` holds the `len` bytes that may be read.
pub mod View
pub mod Later
use vitarecomp.Base.{
  ℕ, zero, suc, ◌+◌, ◌-◌, ◌*◌, ◌/◌, ◌%◌, ◌^◌, bit_and, bit_or, List, length, get_or, leb, ◌==◌,
  if◌then◌else◌,
}

pub record BitReader : Type 0 where
  pub src : List ℕ
  pub pos : ℕ
  pub buf : ℕ
  pub cnt : ℕ
  pub overrun : ℕ

-- The lowest bit of the buffer.
unfoldable pub take_bit : BitReader → BitReader × ℕ
take_bit br = (record br { buf = br.buf / 2; cnt = br.cnt - 1 }, bit_and br.buf 1)

-- Past the end of the input the bit is 0 and the overrun is noted.
unfoldable pub getbit : BitReader → BitReader × ℕ
unfolding take_bit
getbit br =
    if br.cnt == 0
    then if leb (length br.src) br.pos
      then (record br { overrun = 1 }, 0)
      else take_bit (record br { buf = get_or br.src br.pos 0; pos = br.pos + 1; cnt = 8 })
    else take_bit br

-- The loop at bit `i`, with `k` rounds left.
unfoldable pub getbits_loop : ℕ → ℕ → ℕ → BitReader → BitReader × ℕ
getbits_loop zero i v br = (br, v)
getbits_loop (suc k) i v br =
    let (br', b) = getbit br in getbits_loop k (i + 1) (bit_or v (b * 2 ^ i % 2 ^ 32)) br'

unfoldable pub getbits : BitReader → ℕ → BitReader × ℕ
unfolding getbits_loop
getbits br n = getbits_loop n 0 0 br
