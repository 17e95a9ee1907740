-- ===== src/Inflate/Zlib/Format.antt =====
-- The header, the trailer and the checksum of a zlib stream, as RFC 1950 has them in arithmetic, and what
-- the code of tools/armrecomp/inflate.c computes.
use vitarecomp.Base.{
  ℕ, zero, suc, ◌+◌, ◌-◌, ◌*◌, ◌/◌, ◌%◌, ◌^◌, ◌≤◌, ◌≡◌, refl, ap, ◌∙◌, ◌↔◌, bit_and, bit_or, true,
  List, [], ◌∷◌, length, get_or, drop, arith, All, get_or-le,
}
use vitarecomp.Base.Bits.{bit_and_mask, bit_and_split, bit_and-zero, bit_or_fields}
use vitarecomp.Inflate.Zlib.{adler_loop, adler32, is_zlib_header, be32}

-- The two sums of the Adler-32, from an `a` before the bytes.
abbrev pub sum : List ℕ → ℕ
sum [] = 0
sum (x ∷ xs) = x + sum xs

abbrev pub sum_of_sums : ℕ → List ℕ → ℕ
sum_of_sums a [] = 0
sum_of_sums a (x ∷ xs) = (a + x) + sum_of_sums (a + x) xs

-- Adler-32 of RFC 1950: one plus the sum of the bytes, and the sum of these values behind each byte, both modulo
-- 65521.
abbrev pub checksum : List ℕ → ℕ
checksum xs = sum_of_sums 1 xs % 65521 * 2 ^ 16 + (1 + sum xs) % 65521

adler_loop_lem :
    (xs : List ℕ) (a b : ℕ)
    → adler_loop (a % 65521) (b % 65521) xs ≡ ((a + sum xs) % 65521, (b + sum_of_sums a xs) % 65521)
unfolding adler_loop
adler_loop_lem [] a b =
    let x : a % 65521 ≡ (a + 0) % 65521 = omega arith in
    let y : b % 65521 ≡ (b + 0) % 65521 = omega arith in rw x (rw y refl)
adler_loop_lem (x ∷ xs) a b =
    let p : (a % 65521 + x) % 65521 ≡ (a + x) % 65521 = omega arith in
    let q : (b % 65521 + (a + x) % 65521) % 65521 ≡ (b + (a + x)) % 65521 = omega arith in
    let r : (a + x) + sum xs ≡ a + (x + sum xs) = omega arith in
    let t : (b + (a + x)) + sum_of_sums (a + x) xs ≡ b + ((a + x) + sum_of_sums (a + x) xs) =
      omega arith in
    ap (λ (k : ℕ). adler_loop k ((b % 65521 + k) % 65521) xs) p
    ∙ (ap (λ (k : ℕ). adler_loop ((a + x) % 65521) k xs) q
        ∙ (adler_loop_lem xs (a + x) (b + (a + x))
            ∙ (ap (λ (k : ℕ). (k % 65521, ((b + (a + x)) + sum_of_sums (a + x) xs) % 65521)) r
                ∙ ap (λ (k : ℕ). ((a + (x + sum xs)) % 65521, k % 65521)) t)))

pub adler32_lem : (xs : List ℕ) → adler32 xs ≡ checksum xs
unfolding adler32
adler32_lem xs =
    let e = adler_loop_lem xs 1 0 in
    let a = (1 + sum xs) % 65521 in
    let b = sum_of_sums 1 xs % 65521 in
    let small : b * 2 ^ 16 % 2 ^ 32 ≡ b * 2 ^ 16 = omega arith in
    let start : (0 + sum_of_sums 1 xs) % 65521 ≡ b = omega arith in
    ap (λ (p : ℕ × ℕ). bit_or (p.1 * 2 ^ 16 % 2 ^ 32) p.0) e
    ∙ (ap (λ (k : ℕ). bit_or (k * 2 ^ 16 % 2 ^ 32) a) start
        ∙ (ap (λ (k : ℕ). bit_or k a) small ∙ bit_or_fields 16 b a (omega arith)))

-- The last four bytes, the highest first.
abbrev pub trailer : List ℕ → ℕ
trailer src =
    let t = drop (length src - 4) src in
    get_or t 0 0 * 2 ^ 24 + get_or t 1 0 * 2 ^ 16 + get_or t 2 0 * 2 ^ 8 + get_or t 3 0

-- The method is deflate, the check bits fit, and there is no preset dictionary.
pub record IsHeader (p : List ℕ) : Type 0 where
  pub long : 2 ≤ length p
  pub method : get_or p 0 0 % 16 ≡ 8
  pub check : (get_or p 0 0 * 256 + get_or p 1 0) % 31 ≡ 0
  pub no_dictionary : get_or p 1 0 / 32 % 2 ≡ 0

bit_five : (x : ℕ) → bit_and x 0x20 ≡ x / 32 % 2 * 32
bit_five x =
    let e : x / 2 ^ 5 * 2 ^ 5 + x % 2 ^ 5 ≡ x = omega arith in
    ap (λ (k : ℕ). bit_and k 0x20) (omega arith)
    ∙ (bit_and_split 5 (x / 2 ^ 5) (x % 2 ^ 5) 1 0 (omega arith) (omega arith)
        ∙ omega (arith, bit_and_mask 1 (x / 2 ^ 5), bit_and-zero (x % 2 ^ 5)))

All-drop : (n : ℕ) (xs : List ℕ) → All (λ x. x ≤ 255) xs → All (λ x. x ≤ 255) (drop n xs)
All-drop zero xs h = h
All-drop (suc n) [] h = h
All-drop (suc n) (x ∷ xs) h = All-drop n xs h.1

trailing :
    (tr : List ℕ)
    → All (λ x. x ≤ 255) tr
    → be32 tr
      ≡ get_or tr 0 0 * 2 ^ 24 + get_or tr 1 0 * 2 ^ 16 + get_or tr 2 0 * 2 ^ 8 + get_or tr 3 0
unfolding be32
trailing tr h =
    let b1 = get_or-le tr 255 1 h in
    let b2 = get_or-le tr 255 2 h in
    let b3 = get_or-le tr 255 3 h in
    let t0 = get_or tr 0 0 in
    let t1 = get_or tr 1 0 in
    let t2 = get_or tr 2 0 in
    let t3 = get_or tr 3 0 in
    let one : bit_or (t0 * 2 ^ 24) (t1 * 2 ^ 16) ≡ (t0 * 2 ^ 8 + t1) * 2 ^ 16 =
      bit_or_fields 24 t0 (t1 * 2 ^ 16) (omega (arith, b1)) ∙ omega arith in
    let two : bit_or ((t0 * 2 ^ 8 + t1) * 2 ^ 16) (t2 * 2 ^ 8)
        ≡ ((t0 * 2 ^ 8 + t1) * 2 ^ 8 + t2) * 2 ^ 8 =
      bit_or_fields 16 (t0 * 2 ^ 8 + t1) (t2 * 2 ^ 8) (omega (arith, b2)) ∙ omega arith in
    let three = bit_or_fields 8 ((t0 * 2 ^ 8 + t1) * 2 ^ 8 + t2) t3 (omega (arith, b3)) in
    rw one (rw two (three ∙ omega arith))

module _ (p : List ℕ) (bytes : All (λ x. x ≤ 255) p) where
  to :
      bit_and (get_or p 0 0) 0x0f ≡ get_or p 0 0 % 16
      → bit_or (get_or p 0 0 * 2 ^ 8) (get_or p 1 0) ≡ get_or p 0 0 * 2 ^ 8 + get_or p 1 0
      → bit_and (get_or p 1 0) 0x20 ≡ get_or p 1 0 / 32 % 2 * 32
      → is_zlib_header p ≡ true
      → IsHeader p
  unfolding is_zlib_header
  to low word flag h = record {
    long = ground (arith, h);
    method = ground (arith, h, low);
    check = ground (arith, h, word);
    no_dictionary = ground (arith, h, flag);
  }

  back :
      bit_and (get_or p 0 0) 0x0f ≡ get_or p 0 0 % 16
      → bit_or (get_or p 0 0 * 2 ^ 8) (get_or p 1 0) ≡ get_or p 0 0 * 2 ^ 8 + get_or p 1 0
      → bit_and (get_or p 1 0) 0x20 ≡ get_or p 1 0 / 32 % 2 * 32
      → IsHeader p
      → is_zlib_header p ≡ true
  unfolding is_zlib_header
  back low word flag h = ground (arith, h.long, h.method, h.check, h.no_dictionary, low, word, flag)

  pub is_zlib_header_lem : (is_zlib_header p ≡ true) ↔ IsHeader p
  is_zlib_header_lem =
      let low : bit_and (get_or p 0 0) 0x0f ≡ get_or p 0 0 % 16 = bit_and_mask 4 (get_or p 0 0) in
      let word : bit_or (get_or p 0 0 * 2 ^ 8) (get_or p 1 0)
          ≡ get_or p 0 0 * 2 ^ 8 + get_or p 1 0 =
        bit_or_fields 8 (get_or p 0 0) (get_or p 1 0) (omega (arith, get_or-le p 255 1 bytes)) in
      let flag = bit_five (get_or p 1 0) in (to low word flag, back low word flag)

  pub be32_lem : be32 (drop (length p - 4) p) ≡ trailer p
  be32_lem = trailing (drop (length p - 4) p) (All-drop (length p - 4) p bytes)
