-- ===== src/Nids.antt =====
-- The names of tools/armrecomp/nids.c. A name is its bytes without the final zero.
pub mod Laws
mod Tests
use vitarecomp.Base.{
  ℕ, ◌-◌, Bool, true, false, ◌&&◌, Option, none, some, List, [], ◌∷◌, ◌++◌, take, ◌==◌,
  if◌then◌else◌,
}

-- nid_entry.
pub record NidEntry : Type 0 where
  pub lib_nid : ℕ
  pub func_nid : ℕ
  pub name : List ℕ

-- lib_entry.
pub record LibEntry : Type 0 where
  pub lib_nid : ℕ
  pub name : List ℕ

-- nid_db, without the capacities.
pub record NidDb : Type 0 where
  pub funcs : List NidEntry
  pub libs : List LibEntry

-- `snprintf` into a field of 64 bytes, whose last is the final zero.
abbrev pub clip : List ℕ → List ℕ
clip name = take 63 name

unfoldable pub add_func : NidDb → (lib fn : ℕ) → List ℕ → NidDb
add_func db lib fn name = record db {
  funcs = db.funcs ++ record { lib_nid = lib; func_nid = fn; name = clip name } ∷ [];
}

unfoldable pub has_lib : List LibEntry → ℕ → Bool
has_lib [] lib = false
has_lib (e ∷ es) lib = if e.lib_nid == lib then true else has_lib es lib

unfoldable pub add_lib : NidDb → (lib : ℕ) → List ℕ → NidDb
add_lib db lib name =
    if has_lib db.libs lib
    then db
    else record db { libs = db.libs ++ record { lib_nid = lib; name = clip name } ∷ [] }

-- The two scans of nid_func_name.
unfoldable pub exact_name : List NidEntry → (lib fn : ℕ) → Option (List ℕ)
exact_name [] lib fn = none
exact_name (e ∷ es) lib fn =
    if (e.func_nid == fn) && (e.lib_nid == lib) then some e.name else exact_name es lib fn

unfoldable pub any_name : List NidEntry → (fn : ℕ) → Option (List ℕ)
any_name [] fn = none
any_name (e ∷ es) fn = if e.func_nid == fn then some e.name else any_name es fn

-- `none` for the pointer stands for no database.
unfoldable pub nid_func_name : Option NidDb → (lib fn : ℕ) → Option (List ℕ)
nid_func_name none lib fn = none
nid_func_name (some db) lib fn = elim (exact_name db.funcs lib fn) [
  | some name ↦ some name
  | none ↦ any_name db.funcs fn
]

unfoldable pub lib_name : List LibEntry → ℕ → Option (List ℕ)
lib_name [] lib = none
lib_name (e ∷ es) lib = if e.lib_nid == lib then some e.name else lib_name es lib

unfoldable pub nid_lib_name : Option NidDb → (lib : ℕ) → Option (List ℕ)
nid_lib_name none lib = none
nid_lib_name (some db) lib = lib_name db.libs lib
