-- ===== src/Inflate/Stream/Ends.antt =====
-- inf_inflate returns on every input and respects the capacity of the output buffer.
use vitarecomp.Base.{
  ℕ, zero, suc, ◌+◌, ◌*◌, ◌≤◌, ◌<◌, ◌≡◌, ◌∙◌, refl, Option, some, List, length, ◌==◌, not, arith,
  Bool-cases, if_holds, inl, inr,
}
use vitarecomp.Inflate.Status.{Status, err_input, err_format, ok_holds}
use vitarecomp.Inflate.Reader.{BitReader, getbit, getbits}
use vitarecomp.Inflate.Reader.Later.{
  bits_left, Later, Later-refl, Later-trans, getbit-Taken, getbits-Later,
}
use vitarecomp.Inflate.Huff.{Huff, huff_build, build_counts, count_lengths, fits}
use vitarecomp.Inflate.Tables.{
  fixed_lit_lengths, fixed_dist_lengths, build_fixed_lit, build_fixed_dist,
}
use vitarecomp.Inflate.Block.{OutBuf, Step, step, block_stored}
use vitarecomp.Inflate.Block.Bounds.{Grows-refl, Progress}
use vitarecomp.Inflate.Block.Total.{
  Returns, Progress-trans, block_huffman-Returns, block_stored-Progress, block_dynamic-Returns,
}
use vitarecomp.Inflate.Stream.{Fixed, block, blocks, reader, empty_out, inflate}

block-Returns :
    (fuel : ℕ) (fx : Fixed) (type : ℕ) (br : BitReader) (o : OutBuf)
    → bits_left br < fuel
    → Returns br o (block fuel fx type br o)
unfolding block
block-Returns fuel fx type br o h =
    let P : Option Step → Type 0 = Returns br o in
    if_holds P (type == 0) _ _
      (record { last = block_stored br o; result = refl; progress = block_stored-Progress br o })
      (if_holds P (type == 1) _ _ (block_huffman-Returns fuel br o fx.lit fx.dist h) (
        if_holds P (type == 2) _ _ (block_dynamic-Returns fuel fx.fresh br o h) (record {
          last = step err_format br o;
          result = refl;
          progress = record { later = Later-refl br; grows = Grows-refl o };
        })))

blocks-Returns :
    (fuel inner : ℕ) (fx : Fixed) (br : BitReader) (o : OutBuf)
    → bits_left br < fuel
    → bits_left br < inner
    → Returns br o (blocks fuel inner fx br o)
unfolding blocks
blocks-Returns zero inner fx br o h k = absurd (omega arith)
blocks-Returns (suc fuel) inner fx br o h k = elim (Bool-cases (not (t.0.overrun == 0))) [
  | inl over ↦ rw over (record {
    last = step err_input t.0 o;
    result = refl;
    progress = record { later = later; grows = Grows-refl o };
  })
  | inr clean ↦
      let b = block-Returns inner fx t.1 t.0 o (omega (arith, later.fewer)) in
      rw (clean, b.result)
        (ok_holds (Returns br o) b.last.status _ _
          (if_holds (Returns br o) (not (b.last.br.overrun == 0)) _ _
            (from b.last err_input b.progress)
            (if_holds (Returns br o) ((getbit br).1 == 0) _ _
              (next b.progress (
                blocks-Returns fuel inner fx b.last.br b.last.out
                  (omega (arith, taken (ground arith), b.progress.later.fewer))
                  (omega (arith, taken (ground arith), b.progress.later.fewer))))
              (from b.last b.last.status b.progress)))
          (from b.last b.last.status b.progress))
]
  where
    t : BitReader × ℕ
    t = getbits (getbit br).0 2

    later : Later br t.0
    later = Later-trans (getbit-Taken br).later (getbits-Later (getbit br).0 2)

    taken : t.0.overrun ≡ 0 → bits_left t.0 < bits_left br
    taken e = omega (
      arith,
      (getbit-Taken br).strict ((getbits-Later (getbit br).0 2).kept e),
      (getbits-Later (getbit br).0 2).fewer,
    )

    whole : {s : Step} → Progress t.0 o s → Progress br o s
    whole p = record { later = Later-trans later p.later; grows = p.grows }

    from : (s : Step) (x : Status) → Progress t.0 o s → Returns br o (some (step x s.br s.out))
    from s x p = record {
      last = step x s.br s.out;
      result = refl;
      progress = record { later = Later-trans later p.later; grows = p.grows };
    }

    next : {s : Step} {r : Option Step} → Progress t.0 o s → Returns s.br s.out r → Returns br o r
    next p r = record {
      last = r.last;
      result = r.result;
      progress = Progress-trans (whole p) r.progress;
    }

-- The fixed codes are not over-subscribed, so build_fixed fills both tables.
pub fixed_tables :
    (fresh : Huff)
    → (lit : Huff) × (dist : Huff) × (build_fixed_lit fresh ≡ some lit)
      × (build_fixed_dist fresh ≡ some dist)
unfolding build_fixed_lit build_fixed_dist huff_build build_counts count_lengths fits
    fixed_lit_lengths fixed_dist_lengths
fixed_tables fresh = (_, _, refl, refl)

pub inflate_lem :
    (fresh lit dist : Huff) (src : List ℕ) (room : ℕ)
    → build_fixed_lit fresh ≡ some lit
    → build_fixed_dist fresh ≡ some dist
    → inflate fresh src room
      ≡ blocks
          (8 * length src + 1)
          (8 * length src + 1)
          (record { lit = lit; dist = dist; fresh = fresh })
          (reader src)
          (empty_out room)
unfolding inflate
inflate_lem fresh lit dist src room el ed = rw (el, inflate) (rw ed)

-- inf_inflate returns on every input: the fuel is never used up. What it has written, also when it
-- refuses the input, fits the capacity.
pub inflate-total :
    (fresh : Huff) (src : List ℕ) (room : ℕ)
    → (s : Step) × (inflate fresh src room ≡ some s) × (length s.out.dst ≤ room)
unfolding inflate
inflate-total fresh src room =
    let (lit, dist, el, ed) = fixed_tables fresh in
    let fx : Fixed = record { lit = lit; dist = dist; fresh = fresh } in
    let fuel = 8 * length src + 1 in
    let r = blocks-Returns fuel fuel fx (reader src) (empty_out room) (omega arith) (omega arith) in
    (
      r.last,
      inflate_lem fresh lit dist src room el ed ∙ r.result,
      r.progress.grows.within (omega arith),
    )
