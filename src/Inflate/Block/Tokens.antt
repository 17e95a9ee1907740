-- ===== src/Inflate/Block/Tokens.antt =====
-- Block contents as an encoder sees them: literals and copies, their bits under two canonical
-- codes, and the output that they stand for.
use vitarecomp.Base.{
  ℕ, zero, suc, ◌+◌, ◌-◌, ◌^◌, ◌≤◌, ◌<◌, ◌≡◌, refl, true, some, List, [], ◌∷◌, ◌++◌, length, get_or,
  take, drop, arith, length-append, split_at, length-take_le,
}
use mathlib.Core.List.{append_assoc}
use vitarecomp.Inflate.Reader.{BitReader}
use vitarecomp.Inflate.Reader.View.{view, low_bits}
use vitarecomp.Inflate.Huff.{Huff, huff_decode}
use vitarecomp.Inflate.Huff.Code.{high_bits, code_of}
use vitarecomp.Inflate.Huff.Decode.{IsTable, Yields, decodes-IsTable}
use vitarecomp.Inflate.Tables.{len_base, len_extra, dist_base, dist_extra}
use vitarecomp.Inflate.Block.{OutBuf, emit, copy}

-- A copy is given by its length symbol (less 257) and distance symbol, each with its extra bits.
pub data Token : Type 0 where
  lit : ℕ → Token
  back : (len_sym len_rest dist_sym dist_rest : ℕ) → Token

-- The canonical code of symbol `n` of an alphabet with code lengths `ls`.
abbrev pub symbol_bits : List ℕ → ℕ → List ℕ
symbol_bits ls n = high_bits (get_or ls n 0) (code_of ls (take n ls) (get_or ls n 0))

-- Symbol `n` has a code.
pub record HasCode (ls : List ℕ) (n : ℕ) : Type 0 where
  pub inside : n < length ls
  pub used : 0 < get_or ls n 0
  pub short : get_or ls n 0 < 16

pub symbol-Yields :
    (h : Huff) (ls : List ℕ) (n : ℕ) (br : BitReader) (rest : List ℕ)
    → IsTable h ls
    → HasCode ls n
    → view br ≡ symbol_bits ls n ++ rest
    → Yields br (some n) rest (huff_decode br h)
symbol-Yields h ls n br rest t c v = rw (length-take_le n ls (omega (arith, c.inside))) at (
    decodes-IsTable h ls (take n ls) (drop (suc n) ls) (get_or ls n 0) br rest t c.used c.short
      (split_at n ls 0 c.inside) v)

module _ (lits dists : List ℕ) where
  abbrev pub token_bits : Token → List ℕ
  token_bits (lit b) = symbol_bits lits b
  token_bits (back s x d y) =
      symbol_bits lits (257 + s)
      ++ (low_bits (get_or len_extra s 0) x
          ++ (symbol_bits dists d ++ low_bits (get_or dist_extra d 0) y))

  -- The tokens of a block and its end.
  abbrev pub block_bits : List Token → List ℕ
  block_bits [] = symbol_bits lits 256
  block_bits (t ∷ ts) = token_bits t ++ block_bits ts

abbrev pub length_of : ℕ → ℕ → ℕ
length_of s x = get_or len_base s 0 + x

abbrev pub distance_of : ℕ → ℕ → ℕ
distance_of d y = get_or dist_base d 0 + y

-- `k` bytes, each the one that stands `distance` back at the time.
unfoldable pub repeat_back : ℕ → ℕ → List ℕ → List ℕ
repeat_back zero distance out = out
repeat_back (suc k) distance out =
    repeat_back k distance (out ++ (get_or out (length out - distance) 0 ∷ []))

unfoldable pub expand : Token → List ℕ → List ℕ
expand (lit b) out = out ++ (b ∷ [])
expand (back s x d y) out = repeat_back (length_of s x) (distance_of d y) out

unfoldable pub expand_all : List Token → List ℕ → List ℕ
expand_all [] out = out
expand_all (t ∷ ts) out = expand_all ts (expand t out)

module _ (lits dists : List ℕ) (cap : ℕ) where
  -- A token that can be written behind `out`.
  abbrev pub CanFollow : List ℕ → Token → Type 0
  CanFollow out (lit b) = (b < 256) × HasCode lits b × (length out < cap)
  CanFollow out (back s x d y) =
      (s < 29)
      × HasCode lits (257 + s)
      × (x < 2 ^ get_or len_extra s 0)
      × (d < 30)
      × HasCode dists d
      × (y < 2 ^ get_or dist_extra d 0)
      × (distance_of d y ≤ length out)
      × (length out + length_of s x ≤ cap)

  abbrev pub AreTokens : List ℕ → List Token → Type 0
  AreTokens out [] = HasCode lits 256
  AreTokens out (t ∷ ts) = CanFollow out t × AreTokens (expand t out) ts

pub emit_room :
    (o : OutBuf) (b : ℕ)
    → length o.dst < o.cap
    → emit o b ≡ some (record o { dst = o.dst ++ (b ∷ []) })
unfolding emit
emit_room o b h = ground arith

pub copy-repeat_back :
    (k distance : ℕ) (o : OutBuf)
    → length o.dst + k ≤ o.cap
    → copy k distance o ≡ (true, record o { dst = repeat_back k distance o.dst })
unfolding copy repeat_back
copy-repeat_back zero distance o room = refl
copy-repeat_back (suc k) distance o room =
    let b : ℕ = get_or o.dst (length o.dst - distance) 0 in
    rw (emit_room o b (omega arith), copy)
      (copy-repeat_back k distance (record o { dst = o.dst ++ (b ∷ []) })
        (omega (arith, length-append o.dst (b ∷ []))))

-- The bits of a copy, once more, with what follows them.
pub back_bits :
    (lits dists : List ℕ) (s x d y : ℕ) (rest : List ℕ)
    → token_bits lits dists (back s x d y) ++ rest
      ≡ symbol_bits lits (257 + s)
        ++ (low_bits (get_or len_extra s 0) x
            ++ (symbol_bits dists d ++ (low_bits (get_or dist_extra d 0) y ++ rest)))
back_bits lits dists s x d y rest = simp append_assoc
