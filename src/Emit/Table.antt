-- ===== src/Emit/Table.antt =====
-- The dispatch table at the end of em_emit (tools/armrecomp/emit.c).
pub mod Laws
use vitarecomp.Base.{
  ℕ, zero, suc, ◌+◌, Bool, true, false, Option, none, some, List, [], ◌∷◌, length, map, ltb,
  if◌then◌else◌,
}
use vitarecomp.Nids.{NidDb, nid_func_name}
use vitarecomp.Imports.{Stub}
use vitarecomp.Runtime.Dispatch.{Entry}

-- The symbols that the generated program names.
pub data Symbol : Type 0 where
  vita_func : (addr : ℕ) → Symbol
  vita_hle : (name : List ℕ) → Symbol
  vita_hle_nid : (nid : ℕ) → Symbol

-- hle_symbol.
unfoldable pub hle_symbol : Option NidDb → Stub → Symbol
hle_symbol db s = elim (nid_func_name db s.lib_nid s.func_nid) [
  | some name ↦ vita_hle name
  | none ↦ vita_hle_nid s.func_nid
]

-- A row of vita_functions.
pub record Row : Type 0 where
  pub addr : ℕ
  pub symbol : Symbol

-- One round of the merge: the row, and what is left of both lists.
unfoldable pub next_row : Option NidDb → List ℕ → List Stub → Option (Row × List ℕ × List Stub)
next_row db [] [] = none
next_row db [] (s ∷ ss) = some (record { addr = s.addr; symbol = hle_symbol db s }, [], ss)
next_row db (f ∷ fs) [] = some (record { addr = f; symbol = vita_func f }, fs, [])
next_row db (f ∷ fs) (s ∷ ss) =
    if ltb s.addr f
    then some (record { addr = s.addr; symbol = hle_symbol db s }, f ∷ fs, ss)
    else if ltb f s.addr
    then some (record { addr = f; symbol = vita_func f }, fs, s ∷ ss)
    else some (record { addr = s.addr; symbol = hle_symbol db s }, fs, ss)

-- The loop; each round takes an element, so both lengths are enough.
unfoldable pub rows_loop : ℕ → Option NidDb → List ℕ → List Stub → List Row
rows_loop zero db fs ss = []
rows_loop (suc fuel) db fs ss = elim (next_row db fs ss) [
  | none ↦ []
  | some (row, fs', ss') ↦ row ∷ rows_loop fuel db fs' ss'
]

unfoldable pub rows : Option NidDb → List ℕ → List Stub → List Row
rows db fs ss = rows_loop (length fs + length ss) db fs ss

-- The table in the running program, where `link` gives each symbol its function.
abbrev pub linked : (Symbol → ℕ) → List Row → List Entry
linked link rs = map (λ (r : Row). record { addr = r.addr; fn = link r.symbol }) rs
