-- ===== src/Inflate/Stream.antt =====
-- inf_inflate of tools/armrecomp/inflate.c: blocks up to the final one.
pub mod Ends
pub mod FixedCodes
use vitarecomp.Base.{
  ℕ, zero, suc, ◌+◌, ◌*◌, ◌==◌, not, Option, none, some, List, [], length, if◌then◌else◌,
}
use vitarecomp.Inflate.Status.{Status, ok, err_input, err_format}
use vitarecomp.Inflate.Reader.{BitReader, getbit, getbits}
use vitarecomp.Inflate.Huff.{Huff}
use vitarecomp.Inflate.Tables.{build_fixed_lit, build_fixed_dist}
use vitarecomp.Inflate.Block.{OutBuf, Step, step, block_huffman, block_stored, block_dynamic}

-- The two tables of build_fixed, and what an uninitialised table holds.
pub record Fixed : Type 0 where
  pub lit : Huff
  pub dist : Huff
  pub fresh : Huff

-- The `switch` on the block type; `none` is the lack of fuel.
unfoldable pub block : ℕ → Fixed → ℕ → BitReader → OutBuf → Option Step
block fuel fx type br o =
    if type == 0
    then some (block_stored br o)
    else if type == 1
    then block_huffman fuel br o fx.lit fx.dist
    else if type == 2
    then block_dynamic fuel fx.fresh br o
    else some (step err_format br o)

-- The loop over blocks. `fuel` bounds its rounds, `inner` those of the loops within a block.
unfoldable pub blocks : ℕ → ℕ → Fixed → BitReader → OutBuf → Option Step
blocks zero inner fx br o = none
blocks (suc fuel) inner fx br o =
    let (br1, final) = getbit br in
    let (br2, type) = getbits br1 2 in
    if not (br2.overrun == 0)
    then some (step err_input br2 o)
    else elim (block inner fx type br2 o) [
      | none ↦ none
      | some s ↦ elim s.status [
        | ok ↦
            let rest = blocks fuel inner fx s.br s.out in
            if not (s.br.overrun == 0)
            then some (step err_input s.br s.out)
            else if final == 0
            then rest
            else some s
        | _ ↦ some s
      ]
    ]

abbrev pub reader : List ℕ → BitReader
reader src = record { src = src; pos = 0; buf = 0; cnt = 0; overrun = 0 }

abbrev pub empty_out : ℕ → OutBuf
empty_out cap = record { dst = []; cap = cap }

-- Every round of every loop reads a bit or stops, so this much fuel is enough.
unfoldable pub inflate : Huff → List ℕ → ℕ → Option Step
inflate fresh src cap = elim (build_fixed_lit fresh) [
  | none ↦ none
  | some lit ↦ elim (build_fixed_dist fresh) [
    | none ↦ none
    | some dist ↦
        let fuel = 8 * length src + 1 in
        blocks fuel fuel (record { lit = lit; dist = dist; fresh = fresh }) (reader src)
          (empty_out cap)
  ]
]
