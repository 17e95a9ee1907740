-- ===== src/Inflate/Huff/Later.antt =====
-- huff_decode takes a bit, or notes an overrun.
use vitarecomp.Base.{ℕ, zero, suc, ◌+◌, Option, arith, if_holds}
use vitarecomp.Inflate.Reader.{BitReader, getbit}
use vitarecomp.Inflate.Reader.Later.{Later, Taken, Later-refl, Later-trans, getbit-Taken}
use vitarecomp.Inflate.Huff.{Huff, decode_loop, huff_decode}

pub Taken-Later : {a b c : BitReader} → Taken a b → Later b c → Taken a c
Taken-Later p q = record {
  later = Later-trans p.later q;
  strict = λ e. omega (arith, p.strict (q.kept e), q.fewer);
}

pub Later-Taken : {a b c : BitReader} → Later a b → Taken b c → Taken a c
Later-Taken p q = record {
  later = Later-trans p q.later;
  strict = λ e. omega (arith, p.fewer, q.strict e);
}

decode_loop-Later :
    (k len code first index : ℕ) (h : Huff) (br : BitReader)
    → Later br (decode_loop k len code first index h br).0
unfolding decode_loop
decode_loop-Later zero len code first index h br = Later-refl br
decode_loop-Later (suc k) len code first index h br = Later-trans (getbit-Taken br).later (
    if_holds (λ (r : BitReader × Option ℕ). Later (getbit br).0 r.0) _ _ _
      (Later-refl (getbit br).0) (decode_loop-Later k (len + 1) _ _ _ h (getbit br).0))

decode_loop-Taken :
    (k len code first index : ℕ) (h : Huff) (br : BitReader)
    → Taken br (decode_loop (suc k) len code first index h br).0
unfolding decode_loop
decode_loop-Taken k len code first index h br = Taken-Later (getbit-Taken br) (
    if_holds (λ (r : BitReader × Option ℕ). Later (getbit br).0 r.0) _ _ _
      (Later-refl (getbit br).0) (decode_loop-Later k (len + 1) _ _ _ h (getbit br).0))

pub huff_decode-Taken : (br : BitReader) (h : Huff) → Taken br (huff_decode br h).0
unfolding huff_decode
huff_decode-Taken br h = decode_loop-Taken 14 1 0 0 0 h br
