-- ===== src/Container.antt =====
-- tools/armrecomp/container.c: the SELF and ELF layers of a module file. A read beyond the buffer,
-- which is undefined in C, is the outcome `wild`. What a failed parse leaves in the module is not
-- modelled, since no caller looks at it.
pub mod Reads
pub mod Bounds
mod Tests
use vitarecomp.Base.{
  ℕ, zero, suc, ◌+◌, ◌*◌, ◌%◌, ◌^◌, bit_or, Bool, true, false, not, ◌&&◌, ◌||◌, Option, none, some,
  List, [], ◌∷◌, length, get_or, ltb, ◌==◌, if◌then◌else◌,
}
use vitarecomp.Runtime.Mem.{load, le_value}

-- One read: its value, the refusal that clears `*ok`, or an access outside of the buffer.
pub data Fetch : Type 0 where
  value : ℕ → Fetch
  refused : Fetch
  wild : Fetch

-- The bytes at `off`, the lowest first; shifted apart, their `|` is their sum.
unfoldable pub fetch : ℕ → List ℕ → ℕ → Fetch
fetch n b off = if ltb (length b) (off + n) then wild else value (le_value (load n off b))

-- rd16 and rd32 are this with n = 2 and 4; `off + n` is a 64-bit sum.
unfoldable pub rd : ℕ → List ℕ → ℕ → Fetch
rd n b off = if ltb (length b) ((off + n) % 2 ^ 64) then refused else fetch n b off

-- Two reads in a row, each of which is made whatever the other gives.
unfoldable pub both : (ℕ → ℕ → ℕ) → Fetch → Fetch → Fetch
both f wild y = wild
both f refused wild = wild
both f refused _ = refused
both f (value a) wild = wild
both f (value a) refused = refused
both f (value a) (value b) = value (f a b)

unfoldable pub rd64 : List ℕ → ℕ → Fetch
rd64 b off =
    if ltb (length b) ((off + 8) % 2 ^ 64)
    then refused
    else both (λ lo hi. bit_or lo (hi * 2 ^ 32)) (rd 4 b off) (rd 4 b ((off + 4) % 2 ^ 64))

-- One field: its width and its place. The widths are 2, 4 and 8.
unfoldable pub field : List ℕ → ℕ × ℕ → Fetch
field b (n, off) = if n == 8 then rd64 b (off % 2 ^ 64) else rd n b (off % 2 ^ 64)

-- A row of reads with one test of `ok` at the end.
pub data Row : Type 0 where
  values : List ℕ → Row
  truncated : Row
  wild : Row

unfoldable pub push : Fetch → Row → Row
push Fetch.wild r = Row.wild
push (value x) (values xs) = values (x ∷ xs)
push (value x) truncated = truncated
push (value x) Row.wild = Row.wild
push refused (values xs) = truncated
push refused truncated = truncated
push refused Row.wild = Row.wild

unfoldable pub row : List ℕ → List (ℕ × ℕ) → Row
row b [] = values []
row b (f ∷ fs) = push (field b f) (row b fs)

pub data Kind : Type 0 where
  unknown : Kind
  self : Kind
  elf : Kind
  velf : Kind

-- The messages of `fail`.
pub data Reason : Type 0 where
  sce_truncated : Reason
  sce_version : Reason
  elf_past_end : Reason
  no_elf_magic : Reason
  elf_truncated : Reason
  not_arm : Reason
  phentsize_zero : Reason
  phdrs_truncated : Reason
  segments_truncated : Reason
  unrecognised : Reason

pub data Parsed (A : Type 0) : Type 0 where
  parsed : A → Parsed A
  failed : Reason → Parsed A
  wild : Parsed A

abbrev pub is_elf_magic : List ℕ → ℕ → Bool
is_elf_magic b off =
    (get_or b off 0 == 0x7f)
    && ((get_or b (off + 1) 0 == 0x45)
        && ((get_or b (off + 2) 0 == 0x4c) && (get_or b (off + 3) 0 == 0x46)))

abbrev pub is_value : ℕ → Fetch → Bool
is_value x (value y) = y == x
is_value x refused = false
is_value x wild = false

unfoldable pub identify : List ℕ → Kind
identify b =
    if ltb (length b) 0x20
    then unknown
    else if is_value 0x45_4353 (rd 4 b 0)
    then self
    else if is_elf_magic b 0
    then if is_value 0xfe04 (rd 2 b 0x10) then velf else elf
    else unknown

-- vc_elf_header and the program headers, each a list of fields in the order of the source.
pub record ElfLayer : Type 0 where
  pub header : List ℕ
  pub phdrs : List (List ℕ)

abbrev pub elf_fields : ℕ → List (ℕ × ℕ)
elf_fields off =
    (2, off + 0x10)
    ∷ (2, off + 0x12)
    ∷ (4, off + 0x18)
    ∷ (4, off + 0x1c)
    ∷ (2, off + 0x2a)
    ∷ (2, off + 0x2c)
    ∷ []

abbrev pub phdr_fields : ℕ → List (ℕ × ℕ)
phdr_fields p =
    (4, p)
    ∷ (4, p + 4)
    ∷ (4, p + 8)
    ∷ (4, p + 0x10)
    ∷ (4, p + 0x14)
    ∷ (4, p + 0x18)
    ∷ (4, p + 0x1c)
    ∷ []

-- A table of `n` entries of `size` bytes at `start`, the fields of an entry named by `fields`.
unfoldable pub table :
    List ℕ → Reason → (ℕ → List (ℕ × ℕ)) → (start size n i : ℕ) → Parsed (List (List ℕ))
table b why fields start size zero i = parsed []
table b why fields start size (suc n) i =
    let rest = table b why fields start size n (suc i) in
    elim (row b (fields ((start + i * size) % 2 ^ 64))) [
      | values xs ↦ elim rest [ parsed es ↦ parsed (xs ∷ es) | failed r ↦ failed r | wild ↦ wild ]
      | truncated ↦ failed why
      | wild ↦ wild
    ]

-- VC_MAX_SEGMENTS bounds the program headers that are kept.
abbrev pub clamp : ℕ → ℕ
clamp n = if ltb 32 n then 32 else n

unfoldable pub layer : List ℕ → ℕ → List ℕ → Parsed ElfLayer
layer b phdr_off h =
    if not (get_or h 1 0 == 40)
    then failed not_arm
    else if get_or h 4 0 == 0
    then failed phentsize_zero
    else elim (table b phdrs_truncated phdr_fields phdr_off (get_or h 4 0) (clamp (get_or h 5 0))
        0) [
          | parsed ps ↦ parsed (record { header = h; phdrs = ps })
          | failed r ↦ failed r
          | wild ↦ wild
        ]

unfoldable pub parse_elf_layer : List ℕ → (elf_off phdr_off : ℕ) → Parsed ElfLayer
parse_elf_layer b elf_off phdr_off =
    if ltb (length b) ((elf_off + 0x34) % 2 ^ 64)
    then failed elf_past_end
    else if ltb (length b) (elf_off + 4)
    then wild
    else if not (is_elf_magic b elf_off)
    then failed no_elf_magic
    else elim (row b (elf_fields elf_off)) [
      | values h ↦ layer b phdr_off h
      | truncated ↦ failed elf_truncated
      | wild ↦ wild
    ]

-- vc_module.
pub record Module : Type 0 where
  pub kind : Kind
  pub sce : List ℕ
  pub appinfo : Option (List ℕ)
  pub elf_layer : ElfLayer
  pub segs : List (List ℕ)

-- magic, version, sdk_type, header_type, metadata_offset and the quadwords from 0x10 on; the
-- offsets of the appinfo, the ELF header, the program headers and the segment table have the
-- indices 10, 11, 12 and 14.
abbrev pub sce_fields : List (ℕ × ℕ)
sce_fields =
    (4, 0)
    ∷ (4, 4)
    ∷ (2, 8)
    ∷ (2, 0xa)
    ∷ (4, 0xc)
    ∷ (8, 0x10)
    ∷ (8, 0x18)
    ∷ (8, 0x20)
    ∷ (8, 0x28)
    ∷ (8, 0x30)
    ∷ (8, 0x38)
    ∷ (8, 0x40)
    ∷ (8, 0x48)
    ∷ (8, 0x50)
    ∷ (8, 0x58)
    ∷ (8, 0x60)
    ∷ (8, 0x68)
    ∷ (8, 0x70)
    ∷ []

abbrev pub appinfo_fields : ℕ → List (ℕ × ℕ)
appinfo_fields p = (8, p) ∷ (4, p + 8) ∷ (4, p + 0xc) ∷ (8, p + 0x10) ∷ []

abbrev pub seg_fields : ℕ → List (ℕ × ℕ)
seg_fields p = (8, p) ∷ (8, p + 8) ∷ (8, p + 0x10) ∷ (8, p + 0x18) ∷ []

-- The part of parse_self behind the appinfo block.
unfoldable pub self_tables : List ℕ → List ℕ → Option (List ℕ) → Parsed Module
self_tables b h app = elim (parse_elf_layer b (get_or h 11 0) (get_or h 12 0)) [
  | parsed l ↦
      elim (table b segments_truncated seg_fields (get_or h 14 0) 0x20 (length l.phdrs) 0) [
        | parsed ss ↦
            parsed (record { kind = self; sce = h; appinfo = app; elf_layer = l; segs = ss })
        | failed r ↦ failed r
        | wild ↦ wild
      ]
  | failed r ↦ failed r
  | wild ↦ wild
]

unfoldable pub self_body : List ℕ → List ℕ → Parsed Module
self_body b h =
    if not (get_or h 1 0 == 3)
    then failed sce_version
    else elim (row b (appinfo_fields (get_or h 10 0))) [
      | values app ↦ self_tables b h (some app)
      | truncated ↦ self_tables b h none
      | wild ↦ wild
    ]

unfoldable pub parse_self : List ℕ → Parsed Module
parse_self b = elim (row b sce_fields) [
  | values h ↦ self_body b h
  | truncated ↦ failed sce_truncated
  | wild ↦ wild
]

-- The two passes over a plain ELF: the first reads the header and takes the table to be at 0, the
-- second reads the table from e_phoff.
unfoldable pub parse_plain : Kind → List ℕ → Parsed Module
parse_plain k b = elim (parse_elf_layer b 0 0) [
  | parsed l ↦ elim (parse_elf_layer b 0 (get_or l.header 3 0)) [
    | parsed l2 ↦ parsed (record { kind = k; sce = []; appinfo = none; elf_layer = l2; segs = [] })
    | failed r ↦ failed r
    | wild ↦ wild
  ]
  | failed r ↦ failed r
  | wild ↦ wild
]

unfoldable pub parse : List ℕ → Parsed Module
parse b = elim (identify b) [
  | self ↦ parse_self b
  | elf ↦ parse_plain elf b
  | velf ↦ parse_plain velf b
  | unknown ↦ failed unrecognised
]
