-- ===== src/Engine/Lookup.antt =====
-- `Version::lookup_internal` and `lookup`, `Dazzle::get` and `get_internal`.
pub mod Newest
pub mod Shadow
use enigma.Prelude.{ℕ, Bool, true, false, Option, none, some, List, [], ◌∷◌}
use mathlib.Core.List.{reverse}
use enigma.Error.{Result, ok}
use enigma.Io.{Io, pure, ◌>>=◌}
use enigma.Storage.{Key, InternalValue}
use enigma.Memtable
use enigma.SortedMap.{SortedMap}
use enigma.VersionSet.{SstableId, SstableMeta, Version}
use enigma.Engine.{Services, Dazzle, call}

-- A tombstone is no value.
abbrev pub visible : Option InternalValue → Option (List ℕ)
visible none = none
visible (some v) = elim v.is_tombstone [ true ↦ none | false ↦ some v.bytes ]

module _ {D R W : Type 0} (t : Services D R W) where
  -- `if (found.has_value()) return ok(found);` and then the rest of the loop.
  abbrev pub or_else :
      Option InternalValue → Io D (Option InternalValue) → Io D (Option InternalValue)
  or_else (some v) rest = pure (some v)
  or_else none rest = rest

  -- The loop of `lookup_internal` over the tables in its order.
  unfoldable pub lookup_tables : List (SstableId × SstableMeta) → Key → Io D (Option InternalValue)
  lookup_tables [] key = pure none
  lookup_tables ((id, meta) ∷ tables) key = do
    reader ← t.get id
    found ← t.read reader key
    or_else found (lookup_tables tables key)

  -- `Version::lookup_internal`: `rbegin()` to `rend()`.
  unfoldable pub lookup_internal : Version → Key → Io D (Option InternalValue)
  lookup_internal v key = lookup_tables (reverse v.files) key

  -- `Version::lookup`
  unfoldable pub lookup : Version → Key → Io D (Option (List ℕ))
  lookup v key = do result ← lookup_internal v key; pure (visible result)

  -- `if (found.has_value())` with its result, or else the rest.
  abbrev pub unless_found :
      {A : Type 0}
      → (Option InternalValue → A)
      → Option InternalValue
      → Io (Dazzle D) A
      → Io (Dazzle D) A
  unless_found result (some found) rest st = (st, ok (result (some found)))
  unless_found result none rest st = rest st

  -- `Dazzle::get_internal`
  unfoldable pub get_internal : Key → Io (Dazzle D) (Option InternalValue)
  get_internal key st =
      unless_found (λ found. found) (Memtable.get st.active_memtable key)
        (call (lookup_internal st.version_set.current_version key)) st

  -- `Dazzle::get`
  unfoldable pub get : Key → Io (Dazzle D) (Option (List ℕ))
  get key st =
      unless_found visible (Memtable.get st.active_memtable key)
        (call (lookup st.version_set.current_version key)) st
