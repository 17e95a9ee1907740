-- ===== src/Container/Tests.antt =====
-- The container parser on concrete buffers.
use mathlib.Core.Bool.{false≢true}
use vitarecomp.Base.{
  sym, ◌∙◌, Bool, ℕ, ◌+◌, ◌-◌, ◌^◌, ◌≤◌, ◌<◌, ◌≡◌, refl, List, [], ◌∷◌, true, false, arith,
}
use vitarecomp.Runtime.Mem.{load, le_value}
use vitarecomp.Container.{
  value, refused, wild, rd, Row, values, row, push, sce_fields, parse, field, fetch, rd64, both,
}
use vitarecomp.Container.Reads.{rd_lem}
use vitarecomp.Container.Bounds.{InBounds, parse-InBounds}

abbrev four : List ℕ
four = 1 ∷ 2 ∷ 3 ∷ 4 ∷ []

-- An offset 4 below the end of the range: the sum wraps to 0 and the read is made.
rd_lem_example :
    ((0xffff_ffff_ffff_fffc + 4 ≤ 4)
      → rd 4 four 0xffff_ffff_ffff_fffc ≡ value (le_value (load 4 0xffff_ffff_ffff_fffc four)))
    × ((4 < 0xffff_ffff_ffff_fffc + 4)
        → (0xffff_ffff_ffff_fffc + 4 < 2 ^ 64)
        → rd 4 four 0xffff_ffff_ffff_fffc ≡ refused)
    × ((2 ^ 64 ≤ 0xffff_ffff_ffff_fffc + 4)
        → (0xffff_ffff_ffff_fffc + 4 - 2 ^ 64 ≤ 4)
        → rd 4 four 0xffff_ffff_ffff_fffc ≡ wild)
rd_lem_example = rd_lem 4 0xffff_ffff_ffff_fffc four (omega arith) (omega arith) (omega arith)

-- A SELF that ends in the middle of its header.
abbrev cut : List ℕ
cut =
    0x53 ∷ 0x43 ∷ 0x45 ∷ 0 ∷ 3 ∷ 0 ∷ 0 ∷ 0 ∷ 0 ∷ 0 ∷ 1 ∷ 0 ∷ 0 ∷ 0 ∷ 0 ∷ 0 ∷ 0 ∷ 0 ∷ 0 ∷ 0 ∷ 0 ∷ 0
    ∷ 0 ∷ 0 ∷ 0 ∷ 0 ∷ 0 ∷ 0 ∷ 0 ∷ 0 ∷ 0 ∷ 0 ∷ []

is_values : Row → Bool
is_values (values xs) = true
is_values _ = false

cut_truncated : is_values (row cut sce_fields) ≡ false
unfolding row push field rd64 rd fetch both is_values
cut_truncated = refl

is_values_lem : (r : Row) (h : List ℕ) → r ≡ values h → is_values r ≡ true
unfolding is_values
is_values_lem r h e = rw e refl

parse-InBounds_example : InBounds (parse cut)
parse-InBounds_example =
    parse-InBounds cut
      (
        omega arith,
        (
          omega arith,
          (
            omega arith,
            (
              omega arith,
              (
                omega arith,
                (
                  omega arith,
                  (
                    omega arith,
                    (
                      omega arith,
                      (
                        omega arith,
                        (
                          omega arith,
                          (
                            omega arith,
                            (
                              omega arith,
                              (
                                omega arith,
                                (
                                  omega arith,
                                  (
                                    omega arith,
                                    (
                                      omega arith,
                                      (
                                        omega arith,
                                        (
                                          omega arith,
                                          (
                                            omega arith,
                                            (
                                              omega arith,
                                              (
                                                omega arith,
                                                (
                                                  omega arith,
                                                  (
                                                    omega arith,
                                                    (
                                                      omega arith,
                                                      (
                                                        omega arith,
                                                        (
                                                          omega arith,
                                                          (
                                                            omega arith,
                                                            (
                                                            omega arith,
                                                            (
                                                            omega arith,
                                                            (
                                                            omega arith,
                                                            (omega arith, (omega arith, tt)),
                                                            ),
                                                            ),
                                                            ),
                                                          ),
                                                        ),
                                                      ),
                                                    ),
                                                  ),
                                                ),
                                              ),
                                            ),
                                          ),
                                        ),
                                      ),
                                    ),
                                  ),
                                ),
                              ),
                            ),
                          ),
                        ),
                      ),
                    ),
                  ),
                ),
              ),
            ),
          ),
        ),
      )
      (omega arith)
      (λ k h e. absurd (false≢true (sym cut_truncated ∙ is_values_lem (row cut sce_fields) h e)))
