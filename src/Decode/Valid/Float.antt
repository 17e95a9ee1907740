-- ===== src/Decode/Valid/Float.antt =====
-- decode_vfp names float registers below 32 and core registers below 16.
use vitarecomp.Base.{none, some, ℕ, Bool, not, ◌&&◌, Option, ◌==◌, if_holds, arith}
use vitarecomp.Decode.Insn.{VfpInsn, bits, masked}
use vitarecomp.Decode.Vfp.{
  Claim, claimed, declined, settle, decode_vfp_transfer, decode_vfp_other, decode_vfp_data,
  decode_vfp,
}
use vitarecomp.Decode.Valid.{HasRegs, VfpOk}

-- The registers of what decode_vfp has filled.
abbrev pub ClaimOk : Claim → Type 0
ClaimOk (claimed v) = HasRegs v
ClaimOk (declined left) = VfpOk left

-- The same as records, so that the index can be read off.
record Good (r : Option VfpInsn) : Type 0 where
  ok : VfpOk r

record GoodClaim (r : Claim) : Type 0 where
  ok : ClaimOk r

settle-GoodClaim :
    (left : VfpInsn) (r : Option VfpInsn) → HasRegs left → Good r → GoodClaim (settle left r)
unfolding settle
settle-GoodClaim left none h g = record { ok = h }
settle-GoodClaim left (some v) h g = record { ok = g.ok }

module _ (double : Bool) (h1 h2 : ℕ) where
  transfer-Good : Good (decode_vfp_transfer double h1 h2)
  unfolding decode_vfp_transfer
  transfer-Good = ground arith

module _ (o : VfpInsn) (h1 h2 : ℕ) (regs : HasRegs o) where
  other-Good : Good (decode_vfp_other o h1 h2)
  unfolding decode_vfp_other
  other-Good = ground (arith, regs)

  data-Good : Good (decode_vfp_data o h1 h2)
  unfolding decode_vfp_data
  data-Good = ground (arith, regs, other-Good)

decode_vfp-Good : (h1 h2 : ℕ) → GoodClaim (decode_vfp h1 h2)
unfolding decode_vfp
decode_vfp-Good h1 h2 =
    let double = bits 8 4 h2 == 11 in
    if_holds GoodClaim (not (bits 8 4 h2 == 10) && not double) _ _ (ground arith) (
      if_holds GoodClaim (masked h1 0xfe00 0xec00) _ _
        (settle-GoodClaim _ (decode_vfp_transfer double h1 h2) (ground arith)
          (transfer-Good double h1 h2))
        (if_holds GoodClaim (not (masked h1 0xef00 0xee00)) _ _ (ground arith) (
          if_holds GoodClaim (masked h1 0xfff0 0xeef0 && masked h2 0x0f10 0x0a10) _ _ (ground arith)
            (if_holds GoodClaim (masked h1 0xffe0 0xee00 && masked h2 0x0f7f 0x0a10) _ _
              (ground arith)
              (settle-GoodClaim _ (decode_vfp_data _ h1 h2) (ground arith)
                (data-Good _ h1 h2 (ground arith)))))))

pub decode_vfp-ClaimOk : (h1 h2 : ℕ) → ClaimOk (decode_vfp h1 h2)
decode_vfp-ClaimOk h1 h2 = (decode_vfp-Good h1 h2).ok
