-- ===== src/Decode/Tests.antt =====
-- Encodings of branches decoded.
use vitarecomp.Base.{ℕ, ◌≡◌, ◌+◌, ◌*◌, ◌^◌, true, some, List, [], ◌∷◌, arith}
use vitarecomp.Decode.Insn.{branch, call, b, blank}
use vitarecomp.Decode.Entry.{t32, arm_decode}
use vitarecomp.Decode.Thumb.{decode_t16}
use vitarecomp.Decode.Thumb.Targets.{decode_t16-cond_branch, decode_t16-plain_branch}
use vitarecomp.Decode.Valid.Entry.{Outcome, arm_decode-Outcome}
use vitarecomp.Decode.Wide.{decode_t32}
use vitarecomp.Decode.Wide.Targets.{wide_h1, wide_h2, decode_t32-call_wide}

-- BNE to itself: the offset is -4.
decode_t16-cond_branch_example : decode_t16 0x8100_0000 0xd1fe ≡ record (blank 0x8100_0000) {
  raw = 0xd1fe;
  op = b;
  cond = 1;
  cls = branch;
  conditional = true;
  target = some 0x8100_0000;
}
decode_t16-cond_branch_example =
    decode_t16-cond_branch 0x8100_0000 1 0xfe (omega arith) (omega arith)

decode_t16-plain_branch_example :
    decode_t16 0x8100_0000 0xe004
    ≡ record (blank 0x8100_0000) { raw = 0xe004; op = b; cls = branch; target = some 0x8100_000c }
decode_t16-plain_branch_example = decode_t16-plain_branch 0x8100_0000 4 (omega arith)

-- B to itself, at the start of its code.
abbrev spin : List ℕ
spin = 0xfe ∷ 0xe7 ∷ []

arm_decode-Outcome_example :
    Outcome spin 0x8100_0000 0x8100_0000 t32 (arm_decode spin 0x8100_0000 0x8100_0000 t32)
arm_decode-Outcome_example =
    arm_decode-Outcome spin 0x8100_0000 0x8100_0000 t32 (omega arith) (omega arith)

decode_t32-call_wide_example :
    (decode_t32 0x8100_0000 (wide_h1 5) (wide_h2 0xd000 5) ≡ record (blank 0x8100_0000) {
      raw = wide_h1 5 * 2 ^ 16 + wide_h2 0xd000 5;
      cls = call;
      target = some 0x8100_000e;
    })
    × (decode_t32 0x8100_0000 (wide_h1 5) (wide_h2 0x9000 5) ≡ record (blank 0x8100_0000) {
      raw = wide_h1 5 * 2 ^ 16 + wide_h2 0x9000 5;
      op = b;
      cond = 14;
      cls = branch;
      target = some 0x8100_000e;
    })
decode_t32-call_wide_example = decode_t32-call_wide 0x8100_0000 5 (omega arith)
