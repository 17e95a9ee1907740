-- ===== src/Inflate/Reader/Later.antt =====
-- Reading never gives bits back, and takes one unless it notes an overrun.
use vitarecomp.Base.{ℕ, zero, suc, ◌+◌, ◌-◌, ◌*◌, ◌≤◌, ◌<◌, ◌≡◌, length, arith}
use vitarecomp.Inflate.Reader.{BitReader, getbit, getbits_loop, getbits}

-- The number of bits that are still to be read.
abbrev pub bits_left : BitReader → ℕ
bits_left br = br.cnt + 8 * (length br.src - br.pos)

-- `b` comes after `a`: no bits were given back, and an overrun was not forgotten.
pub record Later (a b : BitReader) : Type 0 where
  pub fewer : bits_left b ≤ bits_left a
  pub kept : b.overrun ≡ 0 → a.overrun ≡ 0

pub Later-refl : (a : BitReader) → Later a a
Later-refl a = record { fewer = omega arith; kept = λ e. e }

pub Later-trans : {a b c : BitReader} → Later a b → Later b c → Later a c
Later-trans p q = record { fewer = omega arith; kept = λ e. p.kept (q.kept e) }

-- `getbit` takes a bit, or else notes the overrun.
pub record Taken (a b : BitReader) : Type 0 where
  pub later : Later a b
  pub strict : b.overrun ≡ 0 → bits_left b < bits_left a

pub getbit-Taken : (br : BitReader) → Taken br (getbit br).0
unfolding getbit
getbit-Taken br = ground arith

pub getbits_loop-Later : (k i v : ℕ) (br : BitReader) → Later br (getbits_loop k i v br).0
unfolding getbits_loop
getbits_loop-Later zero i v br = Later-refl br
getbits_loop-Later (suc k) i v br =
    Later-trans (getbit-Taken br).later (getbits_loop-Later k (i + 1) _ (getbit br).0)

pub getbits-Later : (br : BitReader) (n : ℕ) → Later br (getbits br n).0
unfolding getbits
getbits-Later br n = getbits_loop-Later n 0 0 br
