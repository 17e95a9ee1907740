-- ===== src/Inflate/Block.antt =====
-- The block decoders of tools/armrecomp/inflate.c. `dst` holds the bytes before `pos` of the output
-- buffer, the only ones that the code reads, so `pos` is its length.
pub mod Bounds
pub mod Total
pub mod Tokens
pub mod RoundTrip
use vitarecomp.Base.{
  ℕ, zero, suc, ◌+◌, ◌-◌, ◌*◌, ◌%◌, ◌^◌, bit_or, bit_xor, Bool, true, false, not, ◌||◌, Option,
  none, some, List, [], ◌∷◌, ◌++◌, length, get_or, set, take, drop, replicate, ltb, leb, ◌==◌,
  if◌then◌else◌,
}
use vitarecomp.Inflate.Status.{Status, ok, err_input, err_output, err_format, err_distance}
use vitarecomp.Inflate.Reader.{BitReader, getbits}
use vitarecomp.Inflate.Huff.{Huff, huff_build, huff_decode}
use vitarecomp.Inflate.Tables.{len_base, len_extra, dist_base, dist_extra, clen_order}

pub record OutBuf : Type 0 where
  pub dst : List ℕ
  pub cap : ℕ

-- What a decoder leaves: its status, the reader and the output.
pub record Step : Type 0 where
  pub status : Status
  pub br : BitReader
  pub out : OutBuf

abbrev pub step : Status → BitReader → OutBuf → Step
step s br o = record { status = s; br = br; out = o }

-- `none` is the result -1.
unfoldable pub emit : OutBuf → ℕ → Option OutBuf
emit o b = if leb o.cap (length o.dst) then none else some (record o { dst = o.dst ++ (b ∷ []) })

-- The byte-at-a-time copy, with `k` bytes left. A full buffer keeps what was copied.
unfoldable pub copy : ℕ → ℕ → OutBuf → Bool × OutBuf
copy zero distance o = (true, o)
copy (suc k) distance o = elim (emit o (get_or o.dst (length o.dst - distance) 0)) [
  | none ↦ (false, o)
  | some o' ↦ copy k distance o'
]

-- What a symbol 257 + `sym` leads to before the loop goes on; `ok` is the way back to its top.
unfoldable pub match_step : BitReader → OutBuf → Huff → ℕ → Step
match_step br o dist sym =
    if leb 29 sym
    then step err_format br o
    else let (br1, extra) = getbits br (get_or len_extra sym 0) in
      let length' = get_or len_base sym 0 + extra in
      let (br2, dsym?) = huff_decode br1 dist in
      if not (br2.overrun == 0) then step err_input br2 o else elim dsym? [
        | none ↦ step err_format br2 o
        | some dsym ↦
            if leb 30 dsym
            then step err_format br2 o
            else let (br3, dextra) = getbits br2 (get_or dist_extra dsym 0) in
              let distance = get_or dist_base dsym 0 + dextra in
              if ltb (length o.dst) distance
              then step err_distance br3 o
              else let (copied, o') = copy length' distance o in
                step (if copied then ok else err_output) br3 o'
      ]

-- One round of block_huffman: `false` is the `return`, `true` the way back to the top.
unfoldable pub symbol_step : BitReader → OutBuf → Huff → Huff → Bool × Step
symbol_step br o lit dist =
    let (br', sym?) = huff_decode br lit in
    if not (br'.overrun == 0) then (false, step err_input br' o) else elim sym? [
      | none ↦ (false, step err_format br' o)
      | some sym ↦
          if ltb sym 256
          then elim (emit o (sym % 256)) [
            | none ↦ (false, step err_output br' o)
            | some o' ↦ (true, step ok br' o')
          ]
          else if sym == 256
          then (false, step ok br' o)
          else let s = match_step br' o dist (sym - 257) in
            (elim s.status [ ok ↦ true | _ ↦ false ], s)
    ]

-- `none` is the lack of fuel.
unfoldable pub block_huffman : ℕ → BitReader → OutBuf → Huff → Huff → Option Step
block_huffman zero br o lit dist = none
block_huffman (suc fuel) br o lit dist =
    let (more, s) = symbol_step br o lit dist in
    let rest = block_huffman fuel s.br s.out lit dist in if more then rest else some s

unfoldable pub block_stored : BitReader → OutBuf → Step
block_stored br0 o =
    let br = record br0 { cnt = 0; buf = 0 } in
    if ltb (length br.src) (br.pos + 4)
    then step err_input br o
    else let len = bit_or (get_or br.src br.pos 0) (get_or br.src (br.pos + 1) 0 * 2 ^ 8) in
      let nlen = bit_or (get_or br.src (br.pos + 2) 0) (get_or br.src (br.pos + 3) 0 * 2 ^ 8) in
      let br' = record br { pos = br.pos + 4 } in
      if not (bit_xor len 0xffff == nlen)
      then step err_format br' o
      else if ltb (length br.src) (br'.pos + len)
      then step err_input br' o
      else if ltb o.cap (length o.dst + len)
      then step err_output br' o
      else step ok (record br' { pos = br'.pos + len })
          (record o { dst = o.dst ++ take len (drop br'.pos br.src) })

-- for (i...) clen_lengths[clen_order[i]] = getbits(br, 3);
unfoldable pub read_clens : List ℕ → ℕ → BitReader → List ℕ → BitReader × List ℕ
read_clens order zero br lens = (br, lens)
read_clens [] (suc k) br lens = (br, lens)
read_clens (at ∷ order) (suc k) br lens =
    let (br', v) = getbits br 3 in read_clens order k br' (set lens at v)

-- What the loop over code lengths does with one symbol: the lengths to append, or a bad format.
-- `ls` are the `n` lengths so far and `total` is hlit + hdist.
unfoldable pub run_of : BitReader → List ℕ → ℕ → ℕ → BitReader × Option (List ℕ)
run_of br ls total sym =
    if ltb sym 16
    then (br, some (sym ∷ []))
    else if sym == 16
    then (if length ls == 0
        then (br, none)
        else let (br', x) = getbits br 2 in
          (
            br',
            if ltb total (length ls + (3 + x))
                then none
                else some (replicate (3 + x) (get_or ls (length ls - 1) 0)),
          ))
    else if sym == 17
    then (let (br', x) = getbits br 3 in
        (br', if ltb total (length ls + (3 + x)) then none else some (replicate (3 + x) 0)))
    else (let (br', x) = getbits br 7 in
        (br', if ltb total (length ls + (11 + x)) then none else some (replicate (11 + x) 0)))

-- Where the loop over code lengths stops.
pub record Lengths : Type 0 where
  pub status : Status
  pub br : BitReader
  pub lens : List ℕ

abbrev pub lengths_at : Status → BitReader → List ℕ → Lengths
lengths_at s br ls = record { status = s; br = br; lens = ls }

-- The loop over code lengths; `none` is the lack of fuel.
unfoldable pub read_lengths : ℕ → BitReader → Huff → ℕ → List ℕ → Option Lengths
read_lengths zero br clen total ls = none
read_lengths (suc fuel) br clen total ls = elim (leb total (length ls)) [
  | true ↦ some (lengths_at ok br ls)
  | false ↦
      let (br1, sym?) = huff_decode br clen in
      if not (br1.overrun == 0) then some (lengths_at err_input br1 ls) else elim sym? [
        | none ↦ some (lengths_at err_format br1 ls)
        | some sym ↦
            let (br2, run) = run_of br1 ls total sym in
            elim run [
              | none ↦ some (lengths_at err_format br2 ls)
              | some xs ↦ read_lengths fuel br2 clen total (ls ++ xs)
            ]
      ]
]

-- What block_dynamic does with the lengths that it has read.
unfoldable pub decode_with : ℕ → Huff → Lengths → OutBuf → ℕ → Option Step
decode_with fuel fresh r o hlit = elim r.status [
  | ok ↦
      if get_or r.lens 256 0 == 0
      then some (step err_format r.br o)
      else elim (huff_build fresh (take hlit r.lens)) [
        | none ↦ some (step err_format r.br o)
        | some lit ↦ elim (huff_build fresh (drop hlit r.lens)) [
          | none ↦ some (step err_format r.br o)
          | some dist ↦ block_huffman fuel r.br o lit dist
        ]
      ]
  | _ ↦ some (step r.status r.br o)
]

-- Both loops get the same fuel. `fresh` is what the uninitialised tables hold.
unfoldable pub block_dynamic : ℕ → Huff → BitReader → OutBuf → Option Step
block_dynamic fuel fresh br0 o =
    let (br1, x) = getbits br0 5 in
    let hlit = x + 257 in
    let (br2, y) = getbits br1 5 in
    let hdist = y + 1 in
    let (br3, z) = getbits br2 4 in
    let hclen = z + 4 in
    if ltb 286 hlit || ltb 30 hdist
    then some (step err_format br3 o)
    else let (br4, clens) = read_clens clen_order hclen br3 (replicate 19 0) in
      if not (br4.overrun == 0)
      then some (step err_input br4 o)
      else elim (huff_build fresh clens) [
        | none ↦ some (step err_format br4 o)
        | some clen ↦ elim (read_lengths fuel br4 clen (hlit + hdist) []) [
          | none ↦ none
          | some r ↦ decode_with fuel fresh r o hlit
        ]
      ]
