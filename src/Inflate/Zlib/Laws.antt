-- ===== src/Inflate/Zlib/Laws.antt =====
-- What inf_zlib of tools/armrecomp/inflate.c answers.
use vitarecomp.Base.{
  ℕ, ◌-◌, ◌≤◌, ◌≡◌, ◌≢◌, Bool, not, ◌||◌, Option, some, List, length, take, drop, ltb, All,
}
use vitarecomp.Inflate.Status.{Status, ok}
use vitarecomp.Inflate.Huff.{Huff}
use vitarecomp.Inflate.Block.{Step}
use vitarecomp.Inflate.Stream.{inflate}
use vitarecomp.Inflate.Zlib.{is_zlib_header, Result}
use vitarecomp.Inflate.Zlib.Format.{checksum, trailer, IsHeader}

-- `src` is a zlib stream whose body inf_inflate decodes to `out`, and whose trailer has the checksum of it.
pub record Genuine (fresh : Huff) (src : List ℕ) (room : ℕ) (out : List ℕ) : Type 0 where
  pub long : 6 ≤ length src
  pub header : IsHeader src
  pub body : Step
  pub decoded : inflate fresh (take (length src - 2 - 4) (drop 2 src)) room ≡ some body
  pub success : body.status ≡ ok
  pub output : body.out.dst ≡ out
  pub matches : checksum out ≡ trailer src

-- The answer is `ok` just for a genuine stream, with its output and its length; else *out_len keeps the
-- capacity. No byte is written behind the capacity.
pub record Answers (fresh : Huff) (src : List ℕ) (room : ℕ) (o : Option Result) : Type 0 where
  pub answer : Result
  pub result : o ≡ some answer
  pub fits : length answer.written ≤ room
  pub sound :
      answer.status ≡ ok
      → Genuine fresh src room answer.written × (answer.out_len ≡ length answer.written)
  pub complete :
      (out : List ℕ) → Genuine fresh src room out → (answer.status ≡ ok) × (answer.written ≡ out)
  pub refused : answer.status ≢ ok → answer.out_len ≡ room

module _ (fresh : Huff) (src : List ℕ) (room : ℕ) (bytes : All (λ x. x ≤ 255) src) where
  abbrev refuses : Bool
  refuses = ltb (length src) 6 || not (is_zlib_header src)
