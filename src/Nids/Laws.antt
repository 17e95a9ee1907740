-- ===== src/Nids/Laws.antt =====
-- What is added to the database is found in it.
use vitarecomp.Base.{
  ℕ, zero, suc, ◌<◌, ◌≡◌, ◌≢◌, ◌==◌, ◌&&◌, ◌∙◌, ap, get_elem?, none_ne_some, some_eq, refl, true,
  false, Option, none, some, List, [], ◌∷◌, ◌++◌, arith,
}
use vitarecomp.Nids.{
  NidEntry, LibEntry, NidDb, clip, add_func, has_lib, add_lib, exact_name, any_name, nid_func_name,
  lib_name, nid_lib_name,
}

-- The first answer of two.
abbrev pub or_else {ℓ} : {A : Type ℓ} → Option A → Option A → Option A
or_else none y = y
or_else (some x) y = some x

exact_name-append :
    (es : List NidEntry) (e : NidEntry) (lib fn : ℕ)
    → exact_name (es ++ e ∷ []) lib fn ≡ or_else (exact_name es lib fn) (exact_name (e ∷ []) lib fn)
unfolding exact_name
exact_name-append [] e lib fn = refl
exact_name-append (x ∷ es) e lib fn = ground (arith, exact_name-append es e lib fn)

any_name-append :
    (es : List NidEntry) (e : NidEntry) (fn : ℕ)
    → any_name (es ++ e ∷ []) fn ≡ or_else (any_name es fn) (any_name (e ∷ []) fn)
unfolding any_name
any_name-append [] e fn = refl
any_name-append (x ∷ es) e fn = ground (arith, any_name-append es e fn)

-- Entry `i` is the first with a pair of numbers, and carries the name.
pub record IsFirst (es : List NidEntry) (lib fn : ℕ) (name : List ℕ) : Type 0 where
  pub i : ℕ
  pub entry : NidEntry
  pub at : get_elem? es i ≡ some entry
  pub func : entry.func_nid ≡ fn
  pub library : entry.lib_nid ≡ lib
  pub called : entry.name ≡ name
  pub before :
      (j : ℕ) (e : NidEntry) → j < i → get_elem? es j ≡ some e → e.func_nid ≡ fn → e.lib_nid ≢ lib

-- No entry has the pair.
abbrev pub IsNew : List NidEntry → (lib fn : ℕ) → Type 0
IsNew es lib fn =
    (i : ℕ) (e : NidEntry) → get_elem? es i ≡ some e → e.func_nid ≡ fn → e.lib_nid ≢ lib

exact_name-IsNew : (es : List NidEntry) (lib fn : ℕ) → IsNew es lib fn → exact_name es lib fn ≡ none
unfolding exact_name
exact_name-IsNew [] lib fn h = refl
exact_name-IsNew (x ∷ es) lib fn h =
    let ih = exact_name-IsNew es lib fn (λ i e at. h (suc i) e at) in
    let here : x.func_nid ≡ fn → x.lib_nid ≢ lib = h 0 x refl in
    let miss : ((x.func_nid == fn) && (x.lib_nid == lib)) ≡ false = ground (arith, here) in
    rw (miss, exact_name) ih

exact_name-found :
    (es : List NidEntry) (lib fn i : ℕ) (entry : NidEntry)
    → get_elem? es i ≡ some entry
    → entry.func_nid ≡ fn
    → entry.lib_nid ≡ lib
    → ((j : ℕ) (e : NidEntry) → j < i → get_elem? es j ≡ some e → e.func_nid ≡ fn → e.lib_nid ≢ lib)
    → exact_name es lib fn ≡ some entry.name
unfolding exact_name
exact_name-found [] lib fn i entry at f l before = absurd (none_ne_some at)
exact_name-found (x ∷ es) lib fn zero entry at f l before =
    let same : x ≡ entry = some_eq at in
    let hit : ((x.func_nid == fn) && (x.lib_nid == lib)) ≡ true = rw same (ground (arith, f, l)) in
    rw (hit, exact_name) (ap (λ (e : NidEntry). some e.name) same)
exact_name-found (x ∷ es) lib fn (suc i) entry at f l before =
    let ih = exact_name-found es lib fn i entry at f l (λ j e lt. before (suc j) e (omega arith)) in
    let here : x.func_nid ≡ fn → x.lib_nid ≢ lib = before 0 x (omega arith) refl in
    let miss : ((x.func_nid == fn) && (x.lib_nid == lib)) ≡ false = ground (arith, here) in
    rw (miss, exact_name) ih

-- A function added under a library resolves there to its name, cut to 63 bytes, where no entry has that
-- pair of numbers, and else to the name of the first entry that has it; under every other library it
-- resolves to what it did before, and to the new name where it did to none; other functions resolve as
-- before.
pub nid_func_name-add_func :
    (db : NidDb) (lib fn : ℕ) (name : List ℕ)
    → (IsNew db.funcs lib fn
        → nid_func_name (some (add_func db lib fn name)) lib fn ≡ some (clip name))
      × ((old : List ℕ)
          → IsFirst db.funcs lib fn old
          → nid_func_name (some (add_func db lib fn name)) lib fn ≡ some old)
      × ((other : ℕ)
          → other ≢ lib
          → nid_func_name (some (add_func db lib fn name)) other fn
            ≡ or_else (nid_func_name (some db) other fn) (some (clip name)))
      × ((other g : ℕ)
          → g ≢ fn
          → nid_func_name (some (add_func db lib fn name)) other g
            ≡ nid_func_name (some db) other g)
unfolding nid_func_name add_func exact_name any_name
nid_func_name-add_func db lib fn name =
    let e : NidEntry = record { lib_nid = lib; func_nid = fn; name = clip name } in
    let all = exact_name-append db.funcs e lib fn in
    (
      (λ new. let none_yet = exact_name-IsNew db.funcs lib fn new in ground (arith, all, none_yet)),
      (λ old h.
          let found =
            exact_name-found db.funcs lib fn h.i h.entry h.at h.func h.library h.before
            ∙ ap (λ (x : List ℕ). some x) h.called in
          ground (arith, all, found)),
      (λ other ne.
          ground (arith, ne, exact_name-append db.funcs e other fn, any_name-append db.funcs e fn)),
      (λ other g ne.
          ground (arith, ne, exact_name-append db.funcs e other g, any_name-append db.funcs e g)),
    )

lib_name-append :
    (es : List LibEntry) (e : LibEntry) (lib : ℕ)
    → lib_name (es ++ e ∷ []) lib ≡ or_else (lib_name es lib) (lib_name (e ∷ []) lib)
unfolding lib_name
lib_name-append [] e lib = refl
lib_name-append (x ∷ es) e lib = ground (arith, lib_name-append es e lib)

has_lib_lem : (es : List LibEntry) (lib : ℕ) → has_lib es lib ≡ false → lib_name es lib ≡ none
unfolding has_lib lib_name
has_lib_lem [] lib h = refl
has_lib_lem (x ∷ es) lib h = ground (arith, has_lib_lem es lib)

lib_name-has_lib : (es : List LibEntry) (lib : ℕ) → has_lib es lib ≡ true → lib_name es lib ≢ none
unfolding has_lib lib_name
lib_name-has_lib [] lib h = cc
lib_name-has_lib (x ∷ es) lib h = ground (arith, lib_name-has_lib es lib)

-- The first name that is given to a library stays: adding a library again changes nothing, and adding
-- it for the first time gives it its name, cut to 63 bytes; the names of other libraries stay.
pub nid_lib_name-add_lib :
    (db : NidDb) (lib : ℕ) (name : List ℕ)
    → (nid_lib_name (some (add_lib db lib name)) lib
        ≡ or_else (nid_lib_name (some db) lib) (some (clip name)))
      × ((other : ℕ)
          → other ≢ lib
          → nid_lib_name (some (add_lib db lib name)) other ≡ nid_lib_name (some db) other)
unfolding nid_lib_name add_lib lib_name
nid_lib_name-add_lib db lib name =
    let e : LibEntry = record { lib_nid = lib; name = clip name } in
    (
      ground (
        arith,
        lib_name-append db.libs e lib,
        has_lib_lem db.libs lib,
        lib_name-has_lib db.libs lib,
      ),
      (λ other ne. ground (arith, ne, lib_name-append db.libs e other)),
    )
