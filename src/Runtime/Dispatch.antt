-- ===== src/Runtime/Dispatch.antt =====
-- src/dispatch.c: guest address to recompiled function.
pub mod Laws
use vitarecomp.Base.{
  ℕ, ◌+◌, ◌%◌, ◌^◌, bit_and, Bool, true, false, Option, none, some, List, [], ◌∷◌, length,
  get_elem?, ltb, if◌then◌else◌,
}
use vitarecomp.Runtime.Alu.{complement}
use vitarecomp.Runtime.Search.{Search, found, missing, unfinished, search}

-- vita_dispatch_entry; a function is named by a number.
pub record Entry : Type 0 where
  pub addr : ℕ
  pub fn : ℕ

-- The static variables g_table, g_count, g_hits and g_misses.
pub record Dispatcher : Type 0 where
  pub table : List Entry
  pub count : ℕ
  pub hits : ℕ
  pub misses : ℕ

-- The loop of vita_dispatch_init.
unfoldable pub goes_up : List Entry → Bool
goes_up [] = true
goes_up (x ∷ []) = true
goes_up (x ∷ y ∷ es) = if ltb x.addr y.addr then goes_up (y ∷ es) else false

-- vita_dispatch_init.
unfoldable pub init : List Entry → Dispatcher
init table = record {
  table = table;
  count = if goes_up table then length table else 0;
  hits = 0;
  misses = 0;
}

-- The address in a row of the table; the search asks for rows below g_count only.
unfoldable pub addr_at : List Entry → ℕ → ℕ
addr_at table i = elim (get_elem? table i) [ none ↦ 0 | some e ↦ e.addr ]

-- What a transfer comes to: the call of a function, or vita_trap_indirect.
pub data Transfer : Type 0 where
  run : ℕ → Transfer
  trap_indirect : (from addr : ℕ) → Transfer
  -- A row that is not there, or the lack of fuel.
  stuck : Transfer

abbrev pub key_of : ℕ → ℕ
key_of addr = bit_and addr (complement 1)

-- vita_dispatch. The search halves the rows left, so the count and one more rounds are enough.
unfoldable pub dispatch : ℕ → ℕ → Dispatcher → Transfer × Dispatcher
dispatch from addr d = elim (search (addr_at d.table) (key_of addr) (d.count + 1) 0 d.count) [
  | found mid ↦ elim (get_elem? d.table mid) [
    | none ↦ (stuck, d)
    | some e ↦ (run e.fn, record d { hits = (d.hits + 1) % 2 ^ 32 })
  ]
  | missing ↦ (trap_indirect from addr, record d { misses = (d.misses + 1) % 2 ^ 32 })
  | unfinished ↦ (stuck, d)
]
