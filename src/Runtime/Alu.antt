-- ===== src/Runtime/Alu.antt =====
-- include/vitarecomp/recomp_rt.h: shifts, flags, condition codes, extensions and bitfields.
-- A `uint32_t` is a number below 2 ^ 32; a flag is the C `int` that the runtime stores.
pub mod Words
pub mod Shifts
pub mod FlagLaws
use vitarecomp.Base.{
  ℕ, ◌+◌, ◌-◌, ◌*◌, ◌/◌, ◌%◌, ◌^◌, bit_and, bit_or, bit_xor, Bool, true, false, not, ◌&&◌, ◌||◌,
  ltb, leb, ◌==◌, if◌then◌else◌,
}

abbrev pub u32_mod : ℕ
u32_mod = 0x1_0000_0000

abbrev pub all_ones : ℕ
all_ones = 0xffff_ffff

abbrev pub sign_mask : ℕ
sign_mask = 0x8000_0000

-- `~x` of a `uint32_t`.
abbrev pub complement : ℕ → ℕ
complement x = all_ones - x

-- What `if (x)` tests.
abbrev pub truthy : ℕ → Bool
truthy x = not (x == 0)

-- A comparison as the `int` that it is worth.
abbrev pub to_int : Bool → ℕ
to_int true = 1
to_int false = 0

unfoldable pub lsl : ℕ → ℕ → ℕ
lsl v n = if leb 32 n then 0 else v * 2 ^ n % u32_mod

unfoldable pub lsr : ℕ → ℕ → ℕ
lsr v n = if leb 32 n then 0 else v / 2 ^ n

-- `(uint32_t)((int32_t)v >> n)` for n < 32. C leaves the bits shifted in to the compiler: `fill`
-- says whether a negative value shifts in ones.
abbrev pub shift_signed : Bool → ℕ → ℕ → ℕ
shift_signed fill v n =
    if fill && truthy (bit_and v sign_mask) then v / 2 ^ n + (u32_mod - 2 ^ (32 - n)) else v / 2 ^ n

unfoldable pub asr : Bool → ℕ → ℕ → ℕ
asr fill v n =
    if leb 32 n
    then if truthy (bit_and v sign_mask) then all_ones else 0
    else if n == 0
    then v
    else bit_or (shift_signed fill v n)
        (if truthy (bit_and v sign_mask) then complement (all_ones / 2 ^ n) else 0)

unfoldable pub ror : ℕ → ℕ → ℕ
ror v n =
    let k = bit_and n 31 in if truthy k then bit_or (v / 2 ^ k) (v * 2 ^ (32 - k) % u32_mod) else v

-- flag_n, flag_z, flag_c and flag_v.
pub record Flags : Type 0 where
  pub n : ℕ
  pub z : ℕ
  pub c : ℕ
  pub v : ℕ

unfoldable pub flags_nz : Flags → ℕ → Flags
flags_nz f res = record f { n = res / 2 ^ 31; z = to_int (res == 0) }

unfoldable pub flags_add : Flags → ℕ → ℕ → ℕ → Flags
unfolding flags_nz
flags_add f a b res = record (flags_nz f res) {
  c = to_int (ltb res a);
  v = bit_and (bit_xor a res) (bit_xor b res) / 2 ^ 31;
}

unfoldable pub flags_adc : Flags → ℕ → ℕ → ℕ → ℕ → Flags
unfolding flags_nz
flags_adc f a b carry res = record (flags_nz f res) {
  c = if truthy carry then to_int (leb res a) else to_int (ltb res a);
  v = bit_and (bit_xor a res) (bit_xor b res) / 2 ^ 31;
}

unfoldable pub flags_sub : Flags → ℕ → ℕ → ℕ → Flags
unfolding flags_nz
flags_sub f a b res = record (flags_nz f res) {
  c = to_int (leb b a);
  v = bit_and (bit_xor a b) (bit_xor a res) / 2 ^ 31;
}

-- The `switch` of vita_cond on `cc & 0xF`.
cond_case : Flags → ℕ → Bool
cond_case f k =
    if k == 0x0
    then truthy f.z
    else if k == 0x1
    then not (truthy f.z)
    else if k == 0x2
    then truthy f.c
    else if k == 0x3
    then not (truthy f.c)
    else if k == 0x4
    then truthy f.n
    else if k == 0x5
    then not (truthy f.n)
    else if k == 0x6
    then truthy f.v
    else if k == 0x7
    then not (truthy f.v)
    else if k == 0x8
    then truthy f.c && not (truthy f.z)
    else if k == 0x9
    then not (truthy f.c) || truthy f.z
    else if k == 0xa
    then f.n == f.v
    else if k == 0xb
    then not (f.n == f.v)
    else if k == 0xc
    then not (truthy f.z) && (f.n == f.v)
    else if k == 0xd
    then truthy f.z || not (f.n == f.v)
    else true

unfoldable pub cond : Flags → ℕ → Bool
unfolding cond_case
cond f cc = cond_case f (bit_and cc 0xf)

-- `(uint32_t)(int32_t)(int8_t)(v & 0xFF)` and the same for 16 bits.
unfoldable pub sxtb : ℕ → ℕ
sxtb v = let b = bit_and v 0xff in if ltb b 0x80 then b else b + (u32_mod - 0x100)

unfoldable pub sxth : ℕ → ℕ
sxth v = let h = bit_and v 0xffff in if ltb h 0x8000 then h else h + (u32_mod - 0x10000)

unfoldable pub uxtb : ℕ → ℕ
uxtb v = bit_and v 0xff

unfoldable pub uxth : ℕ → ℕ
uxth v = bit_and v 0xffff

unfoldable pub rev : ℕ → ℕ
rev v =
    bit_or
      (bit_or (bit_or (bit_and v 0xff * 2 ^ 24 % u32_mod) (bit_and v 0xff00 * 2 ^ 8 % u32_mod))
        (bit_and (v / 2 ^ 8) 0xff00))
      (bit_and (v / 2 ^ 24) 0xff)

unfoldable pub bf_mask : ℕ → ℕ
bf_mask width = if leb 32 width then all_ones else 2 ^ width % u32_mod - 1

unfoldable pub ubfx : ℕ → ℕ → ℕ → ℕ
unfolding lsr bf_mask
ubfx v lsb width = bit_and (lsr v lsb) (bf_mask width)

unfoldable pub sbfx : ℕ → ℕ → ℕ → ℕ
unfolding lsr bf_mask
sbfx v lsb width =
    let f = bit_and (lsr v lsb) (bf_mask width) in
    if width == 0 || leb 32 width
    then f
    else if truthy (bit_and f (2 ^ (width - 1)))
    then bit_or f (complement (bf_mask width))
    else f

unfoldable pub bfi : ℕ → ℕ → ℕ → ℕ → ℕ
unfolding lsl bf_mask
bfi dst src lsb width =
    let m = lsl (bf_mask width) lsb in bit_or (bit_and dst (complement m)) (bit_and (lsl src lsb) m)
