-- ===== src/Bus/Table.antt =====
-- The std::map of the bus, a list of entries in the order of their keys (base, limit).
use hdu_cpu_lab.Common.{
  ℕ, ◌-◌, ◌^◌, Bool, false, ◌&&◌, ◌||◌, Option, none, some, List, [], ◌∷◌, ltb, leb, ◌==◌,
  if◌then◌else◌,
}
use Prim.Native.Nat.{min, max}

-- The key `it->first` and the value `it->second` of the map.
pub record Entry : Type 0 where
  pub base : ℕ
  pub limit : ℕ
  pub raw_addr : Bool
  pub dev : ℕ

-- ULONG_MAX
abbrev pub max_key : ℕ
max_key = 2 ^ 64 - 1

-- The entry's key is at most (k, l) in the order of pairs.
abbrev pub key_le : Entry → ℕ → ℕ → Bool
key_le e k l = ltb e.base k || (e.base == k && leb e.limit l)

-- The first entry whose key exceeds (k, l), if any.
unfoldable pub upper_bound : ℕ → ℕ → List Entry → Option Entry
upper_bound k l [] = none
upper_bound k l (e ∷ es) = if key_le e k l then upper_bound k l es else some e

-- The entry just before that place, if the place is not the beginning.
unfoldable pub before_upper : ℕ → ℕ → List Entry → Option Entry
before_upper k l [] = none
before_upper k l (e ∷ es) =
    let later = before_upper k l es in
    if key_le e k l then elim later [ none ↦ some e | some f ↦ some f ] else none

-- `devices[key] = value`: an entry of the same key is replaced.
unfoldable pub insert : Entry → List Entry → List Entry
insert e [] = e ∷ []
insert e (f ∷ fs) =
    if key_le f e.base e.limit
    then if f.base == e.base && f.limit == e.limit then e ∷ fs else f ∷ insert e fs
    else e ∷ f ∷ fs

-- `l_max < r_min` of the neighbour's range and the new one.
unfoldable pub overlaps : Option Entry → Entry → Bool
overlaps none e = false
overlaps (some f) e = ltb (max f.base e.base) (min f.limit e.limit)
