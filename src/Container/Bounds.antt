-- ===== src/Container/Bounds.antt =====
-- vc_parse stays within the buffer.
use native.Mathlib.Nat.{mul-le-mul_right}
use vitarecomp.Base.{
  get_elem?, none_ne_some, some_eq, ℕ, zero, suc, ◌+◌, ◌*◌, ◌%◌, ◌^◌, ◌≤◌, ◌<◌, ◌≡◌, refl, ap,
  false, not, Option, none, some, List, [], ◌∷◌, length, get_or, ltb, ◌==◌, arith, All, Bool-cases,
  if_holds, inl, inr,
}
use vitarecomp.Container.{
  unrecognised, phdrs_truncated, segments_truncated, is_elf_magic, Fetch, value, refused, field,
  Row, values, truncated, push, row, Parsed, parsed, failed, Reason, table, phdr_fields, seg_fields,
  elf_fields, appinfo_fields, sce_fields, ElfLayer, clamp, layer, parse_elf_layer, Module,
  self_tables, self_body, parse_self, parse_plain, identify, parse, Kind, self, elf, velf, unknown,
}
use vitarecomp.Container.Reads.{FetchOk, field-Ok}

-- A row's values fit their widths.
abbrev pub Fit : List (ℕ × ℕ) → List ℕ → Type 0
Fit [] [] = Unit {0}
Fit [] (x ∷ xs) = ⊥
Fit (f ∷ fs) [] = ⊥
Fit (f ∷ fs) (x ∷ xs) = (x < 256 ^ f.0) × Fit fs xs

abbrev pub RowOk : List (ℕ × ℕ) → Row → Type 0
RowOk fs (values xs) = Fit fs xs
RowOk fs truncated = Unit {0}
RowOk fs Row.wild = ⊥

abbrev pub Places : List (ℕ × ℕ) → Type 0
Places = All (λ f. (f.0 ≤ 8) × (f.1 + 8 < 2 ^ 64))

push-Ok :
    (f : ℕ × ℕ) (fs : List (ℕ × ℕ)) (x : Fetch) (r : Row)
    → FetchOk f.0 x
    → RowOk fs r
    → RowOk (f ∷ fs) (push x r)
unfolding push
push-Ok f fs Fetch.wild r p q = p
push-Ok f fs (value x) (values xs) p q = (p, q)
push-Ok f fs (value x) truncated p q = tt
push-Ok f fs (value x) Row.wild p q = q
push-Ok f fs refused (values xs) p q = tt
push-Ok f fs refused truncated p q = tt
push-Ok f fs refused Row.wild p q = q

row-Ok : (b : List ℕ) (fs : List (ℕ × ℕ)) → All (λ x. x < 256) b → Places fs → RowOk fs (row b fs)
unfolding row
row-Ok b [] bytes h = tt
row-Ok b (f ∷ fs) bytes h =
    push-Ok f fs (field b f) (row b fs) (field-Ok f.0 f.1 b bytes h.0.0 h.0.1)
      (row-Ok b fs bytes h.1)

-- No access outside of the buffer.
abbrev pub InBounds : {A : Type 0} → Parsed A → Type 0
InBounds (parsed x) = Unit {0}
InBounds (failed r) = Unit {0}
InBounds Parsed.wild = ⊥

-- What holds of the outcomes of a row, and of a part.
row_holds :
    {A : Type 0} (P : Parsed A → Type 0) (fs : List (ℕ × ℕ)) (r : Row) (f : List ℕ → Parsed A)
    (x : Parsed A)
    → RowOk fs r
    → ((xs : List ℕ) → r ≡ values xs → Fit fs xs → P (f xs))
    → P x
    → P (elim r [ values xs ↦ f xs | truncated ↦ x | Row.wild ↦ Parsed.wild ])
row_holds P fs (values xs) f x ok p q = p xs refl ok
row_holds P fs truncated f x ok p q = q
row_holds P fs Row.wild f x ok p q = absurd ok

part_holds :
    {A B : Type 0} (P : Parsed B → Type 0) (r : Parsed A) (f : A → Parsed B)
    → InBounds r
    → ((a : A) → r ≡ parsed a → P (f a))
    → ((e : Reason) → P (failed e))
    → P (elim r [ parsed a ↦ f a | failed e ↦ failed e | Parsed.wild ↦ Parsed.wild ])
part_holds P (parsed a) f ok p q = p a refl
part_holds P (failed e) f ok p q = q e
part_holds P Parsed.wild f ok p q = absurd ok

-- A table with all its entries.
abbrev pub TableOk : ℕ → Parsed (List (List ℕ)) → Type 0
TableOk n (parsed es) = length es ≡ n
TableOk n (failed r) = Unit {0}
TableOk n Parsed.wild = ⊥

TableOk-InBounds : (n : ℕ) (r : Parsed (List (List ℕ))) → TableOk n r → InBounds r
TableOk-InBounds n (parsed es) h = tt
TableOk-InBounds n (failed r) h = tt
TableOk-InBounds n Parsed.wild h = h

table_length :
    (n : ℕ) (r : Parsed (List (List ℕ))) (es : List (List ℕ))
    → r ≡ parsed es
    → TableOk n r
    → length es ≡ n
table_length n r es e ok = rw e at ok

table-TableOk :
    (b : List ℕ) (why : Reason) (fields : ℕ → List (ℕ × ℕ)) (start size n i : ℕ)
    → All (λ x. x < 256) b
    → ((p : ℕ) → p < 2 ^ 63 + 2 ^ 32 → Places (fields p))
    → start < 2 ^ 63
    → size < 2 ^ 16
    → i + n ≤ 2 ^ 8
    → TableOk n (table b why fields start size n i)
unfolding table
table-TableOk b why fields start size zero i bytes ok s z few = refl
table-TableOk b why fields start size (suc n) i bytes ok s z few =
    let far : i * size ≤ 2 ^ 8 * 2 ^ 16 =
      omega (arith, mul-le-mul_right {m = i} {n = 2 ^ 8} size (omega arith)) in
    let later = table-TableOk b why fields start size n (suc i) bytes ok s z (omega arith) in
    row_holds (TableOk (suc n)) (fields ((start + i * size) % 2 ^ 64))
      (row b (fields ((start + i * size) % 2 ^ 64))) _ _ (row-Ok b _ bytes (ok _ (omega arith)))
      (λ xs e fit.
        part_holds (TableOk (suc n)) (table b why fields start size n (suc i)) _
          (TableOk-InBounds n _ later) (λ es q. ap suc (table_length n _ es q later)) (λ r. tt))
      tt

phdr-Places : (p : ℕ) → p < 2 ^ 63 + 2 ^ 32 → Places (phdr_fields p)
phdr-Places p h = (
  (omega arith, omega arith),
  (
    (omega arith, omega arith),
    (
      (omega arith, omega arith),
      (
        (omega arith, omega arith),
        (
          (omega arith, omega arith),
          ((omega arith, omega arith), ((omega arith, omega arith), tt)),
        ),
      ),
    ),
  ),
)

seg-Places : (p : ℕ) → p < 2 ^ 63 + 2 ^ 32 → Places (seg_fields p)
seg-Places p h = (
  (omega arith, omega arith),
  ((omega arith, omega arith), ((omega arith, omega arith), ((omega arith, omega arith), tt))),
)

appinfo-Places : (p : ℕ) → p < 2 ^ 63 + 2 ^ 32 → Places (appinfo_fields p)
appinfo-Places p h = (
  (omega arith, omega arith),
  ((omega arith, omega arith), ((omega arith, omega arith), ((omega arith, omega arith), tt))),
)

elf-Places : (p : ℕ) → p < 2 ^ 63 + 2 ^ 32 → Places (elf_fields p)
elf-Places p h = (
  (omega arith, omega arith),
  (
    (omega arith, omega arith),
    (
      (omega arith, omega arith),
      ((omega arith, omega arith), ((omega arith, omega arith), ((omega arith, omega arith), tt))),
    ),
  ),
)

clamp_le : (n : ℕ) → clamp n ≤ 32
clamp_le n = ground arith

-- A value fits the width of its field.
Fit-get :
    (fs : List (ℕ × ℕ)) (h : List ℕ) (k : ℕ) (f : ℕ × ℕ)
    → get_elem? fs k ≡ some f
    → Fit fs h
    → get_or h k 0 < 256 ^ f.0
Fit-get [] h k f e fit = absurd (none_ne_some e)
Fit-get (g ∷ fs) [] k f e fit = absurd fit
Fit-get (g ∷ fs) (x ∷ xs) zero f e fit = rw (some_eq e) at fit.0
Fit-get (g ∷ fs) (x ∷ xs) (suc k) f e fit = Fit-get fs xs k f e fit.1

-- A layer whose header fits.
abbrev pub LayerOk : ℕ → Parsed ElfLayer → Type 0
LayerOk off (parsed l) = Fit (elf_fields off) l.header × (length l.phdrs ≤ 32)
LayerOk off (failed r) = Unit {0}
LayerOk off Parsed.wild = ⊥

LayerOk-InBounds : (off : ℕ) (r : Parsed ElfLayer) → LayerOk off r → InBounds r
LayerOk-InBounds off (parsed l) h = tt
LayerOk-InBounds off (failed r) h = tt
LayerOk-InBounds off Parsed.wild h = h

layer-LayerOk :
    (b : List ℕ) (off phdr_off : ℕ) (h : List ℕ)
    → All (λ x. x < 256) b
    → phdr_off < 2 ^ 63
    → Fit (elf_fields off) h
    → LayerOk off (layer b phdr_off h)
unfolding layer
layer-LayerOk b off phdr_off h bytes near fit =
    let few = clamp_le (get_or h 5 0) in
    let entries =
      table-TableOk b phdrs_truncated phdr_fields phdr_off (get_or h 4 0) (clamp (get_or h 5 0)) 0
        bytes phdr-Places near (Fit-get (elf_fields off) h 4 _ refl fit) (omega (arith, few)) in
    if_holds (LayerOk off) (not (get_or h 1 0 == 40)) _ _ tt (
      if_holds (LayerOk off) (get_or h 4 0 == 0) _ _ tt (
        part_holds (LayerOk off)
          (table b phdrs_truncated phdr_fields phdr_off (get_or h 4 0) (clamp (get_or h 5 0)) 0) _
          (TableOk-InBounds _ _ entries)
          (λ ps e. (fit, omega (arith, few, table_length _ _ ps e entries))) (λ r. tt)))

parse_elf_layer-LayerOk :
    (b : List ℕ) (elf_off phdr_off : ℕ)
    → All (λ x. x < 256) b
    → length b < 2 ^ 63
    → elf_off < 2 ^ 63
    → phdr_off < 2 ^ 63
    → LayerOk elf_off (parse_elf_layer b elf_off phdr_off)
unfolding parse_elf_layer
parse_elf_layer-LayerOk b elf_off phdr_off bytes small near near' =
    elim (Bool-cases (ltb (length b) ((elf_off + 0x34) % 2 ^ 64))) [
      | inl past ↦ rw past tt
      | inr inside ↦
          let there : ltb (length b) (elf_off + 4) ≡ false = ground arith in
          rw (inside, there)
            (if_holds (LayerOk elf_off) (not (is_elf_magic b elf_off)) _ _ tt (
              row_holds (LayerOk elf_off) (elf_fields elf_off) (row b (elf_fields elf_off)) _ _
                (row-Ok b _ bytes (elf-Places elf_off (omega arith)))
                (λ h e fit. layer-LayerOk b elf_off phdr_off h bytes near' fit) tt))
    ]

-- The header of a layer that was parsed.
layer_header :
    (off : ℕ) (r : Parsed ElfLayer) (l : ElfLayer)
    → r ≡ parsed l
    → LayerOk off r
    → Fit (elf_fields off) l.header × (length l.phdrs ≤ 32)
layer_header off r l e ok = rw e at ok

parse_plain-InBounds :
    (k : Kind) (b : List ℕ) → All (λ x. x < 256) b → length b < 2 ^ 63 → InBounds (parse_plain k b)
unfolding parse_plain
parse_plain-InBounds k b bytes small =
    let first = parse_elf_layer-LayerOk b 0 0 bytes small (omega arith) (omega arith) in
    part_holds InBounds (parse_elf_layer b 0 0) _ (LayerOk-InBounds 0 _ first)
      (λ l e.
        let phoff = Fit-get (elf_fields 0) l.header 3 _ refl (layer_header 0 _ l e first).0 in
        part_holds InBounds (parse_elf_layer b 0 (get_or l.header 3 0)) _
          (LayerOk-InBounds 0 _ (
            parse_elf_layer-LayerOk b 0 (get_or l.header 3 0) bytes small (omega arith)
              (omega (arith, phoff))))
          (λ l2 e2. tt) (λ r. tt))
      (λ r. tt)

-- The offsets of an SCE header that the parser follows stay clear of the end of the 64-bit range.
pub record Offsets (h : List ℕ) : Type 0 where
  pub appinfo : get_or h 10 0 < 2 ^ 63
  pub elf_header : get_or h 11 0 < 2 ^ 63
  pub phdrs : get_or h 12 0 < 2 ^ 63
  pub segments : get_or h 14 0 < 2 ^ 63

self_tables-InBounds :
    (b h : List ℕ) (app : Option (List ℕ))
    → All (λ x. x < 256) b
    → length b < 2 ^ 63
    → Offsets h
    → InBounds (self_tables b h app)
unfolding self_tables
self_tables-InBounds b h app bytes small o =
    let first =
      parse_elf_layer-LayerOk b (get_or h 11 0) (get_or h 12 0) bytes small o.elf_header o.phdrs in
    part_holds InBounds (parse_elf_layer b (get_or h 11 0) (get_or h 12 0)) _
      (LayerOk-InBounds (get_or h 11 0) _ first)
      (λ l e.
        let few = (layer_header (get_or h 11 0) _ l e first).1 in
        part_holds InBounds
          (table b segments_truncated seg_fields (get_or h 14 0) 0x20 (length l.phdrs) 0) _
          (TableOk-InBounds _ _ (
            table-TableOk b segments_truncated seg_fields (get_or h 14 0) 0x20 (length l.phdrs) 0
              bytes seg-Places o.segments (omega arith) (omega (arith, few))))
          (λ ss q. tt) (λ r. tt))
      (λ r. tt)

self_body-InBounds :
    (b h : List ℕ) → All (λ x. x < 256) b → length b < 2 ^ 63 → Offsets h → InBounds (self_body b h)
unfolding self_body
self_body-InBounds b h bytes small o = if_holds InBounds (not (get_or h 1 0 == 3)) _ _ tt (
    row_holds InBounds (appinfo_fields (get_or h 10 0)) (row b (appinfo_fields (get_or h 10 0))) _ _
      (row-Ok b _ bytes (appinfo-Places (get_or h 10 0) (omega (arith, o.appinfo))))
      (λ app e fit. self_tables-InBounds b h (some app) bytes small o)
      (self_tables-InBounds b h none bytes small o))

sce-Places : Places sce_fields
sce-Places = (
  (omega arith, omega arith),
  (
    (omega arith, omega arith),
    (
      (omega arith, omega arith),
      (
        (omega arith, omega arith),
        (
          (omega arith, omega arith),
          (
            (omega arith, omega arith),
            (
              (omega arith, omega arith),
              (
                (omega arith, omega arith),
                (
                  (omega arith, omega arith),
                  (
                    (omega arith, omega arith),
                    (
                      (omega arith, omega arith),
                      (
                        (omega arith, omega arith),
                        (
                          (omega arith, omega arith),
                          (
                            (omega arith, omega arith),
                            (
                              (omega arith, omega arith),
                              (
                                (omega arith, omega arith),
                                ((omega arith, omega arith), ((omega arith, omega arith), tt)),
                              ),
                            ),
                          ),
                        ),
                      ),
                    ),
                  ),
                ),
              ),
            ),
          ),
        ),
      ),
    ),
  ),
)

parse_self-InBounds :
    (b : List ℕ)
    → All (λ x. x < 256) b
    → length b < 2 ^ 63
    → ((h : List ℕ) → row b sce_fields ≡ values h → Offsets h)
    → InBounds (parse_self b)
unfolding parse_self
parse_self-InBounds b bytes small o =
    row_holds InBounds sce_fields (row b sce_fields) _ _ (row-Ok b sce_fields bytes sce-Places)
      (λ h e fit. self_body-InBounds b h bytes small (o h e)) tt

kind_holds :
    (k : Kind) (x y z : Parsed Module)
    → (k ≡ self → InBounds x)
    → InBounds y
    → InBounds z
    → InBounds (elim k [ self ↦ x | elf ↦ y | velf ↦ z | unknown ↦ failed unrecognised ])
kind_holds self x y z p q r = p refl
kind_holds elf x y z p q r = q
kind_holds velf x y z p q r = r
kind_holds unknown x y z p q r = tt

-- For any buffer of bytes shorter than 2 ^ 63, vc_parse makes no access outside of it, whether it
-- accepts the file or refuses it. For a SELF whose header can be read this has the condition that the
-- four offsets that the parser follows from the header are below 2 ^ 63.
pub parse-InBounds :
    (b : List ℕ)
    → All (λ x. x < 256) b
    → length b < 2 ^ 63
    → (identify b ≡ self → (h : List ℕ) → row b sce_fields ≡ values h → Offsets h)
    → InBounds (parse b)
unfolding parse
parse-InBounds b bytes small o =
    kind_holds (identify b) _ _ _ (λ e. parse_self-InBounds b bytes small (o e))
      (parse_plain-InBounds elf b bytes small) (parse_plain-InBounds velf b bytes small)
