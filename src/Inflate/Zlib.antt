-- ===== src/Inflate/Zlib.antt =====
-- The zlib wrapper of tools/armrecomp/inflate.c.
pub mod Format
pub mod Laws
use vitarecomp.Base.{
  ℕ, ◌+◌, ◌-◌, ◌*◌, ◌%◌, ◌^◌, bit_and, bit_or, Bool, true, false, not, ◌||◌, Option, none, some,
  List, [], ◌∷◌, length, get_or, take, drop, ltb, ◌==◌, if◌then◌else◌,
}
use vitarecomp.Inflate.Status.{Status, ok, err_header, err_adler}
use vitarecomp.Inflate.Huff.{Huff}
use vitarecomp.Inflate.Block.{Step, OutBuf}
use vitarecomp.Inflate.Stream.{inflate}

unfoldable pub adler_loop : ℕ → ℕ → List ℕ → ℕ × ℕ
adler_loop a b [] = (a, b)
adler_loop a b (x ∷ xs) = let a' = (a + x) % 65521 in adler_loop a' ((b + a') % 65521) xs

unfoldable pub adler32 : List ℕ → ℕ
adler32 xs = let (a, b) = adler_loop 1 0 xs in bit_or (b * 2 ^ 16 % 2 ^ 32) a

unfoldable pub is_zlib_header : List ℕ → Bool
is_zlib_header p =
    if ltb (length p) 2
    then false
    else if not (bit_and (get_or p 0 0) 0x0f == 8)
    then false
    else if not (bit_or (get_or p 0 0 * 2 ^ 8) (get_or p 1 0) % 31 == 0)
    then false
    else bit_and (get_or p 1 0) 0x20 == 0

-- The four bytes of the trailer, the highest first.
unfoldable pub be32 : List ℕ → ℕ
be32 tr =
    bit_or
      (bit_or (bit_or (get_or tr 0 0 * 2 ^ 24) (get_or tr 1 0 * 2 ^ 16)) (get_or tr 2 0 * 2 ^ 8))
      (get_or tr 3 0)

-- The status, the bytes that have been written to dst from its start, and *out_len, which keeps the
-- capacity unless the status is `ok`.
pub record Result : Type 0 where
  pub status : Status
  pub written : List ℕ
  pub out_len : ℕ

unfoldable pub zlib : Huff → List ℕ → ℕ → Option Result
zlib fresh src cap =
    if ltb (length src) 6 || not (is_zlib_header src)
    then some (record { status = err_header; written = []; out_len = cap })
    else elim (inflate fresh (take (length src - 2 - 4) (drop 2 src)) cap) [
      | none ↦ none
      | some s ↦ elim s.status [
        | ok ↦
            if adler32 s.out.dst == be32 (drop (length src - 4) src)
            then some (record { status = ok; written = s.out.dst; out_len = length s.out.dst })
            else some (record { status = err_adler; written = s.out.dst; out_len = cap })
        | _ ↦ some (record { status = s.status; written = s.out.dst; out_len = cap })
      ]
    ]
