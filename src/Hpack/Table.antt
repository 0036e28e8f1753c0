-- ===== src/Hpack/Table.antt =====
-- Hpack's dynamic table: AddDynamic, UpdateMaxSize and GetByIndex.
pub mod Evict
use linux_highperf_proxy.Base.{
  ℕ, zero, suc, ◌+◌, ◌-◌, ◌%◌, ◌^◌, List, [], ◌∷◌, Option, none, some, Bool, true, false, ◌&&◌, ltb,
  leb, ◌==◌, if◌then◌else◌, length, get_elem?,
}
use linux_highperf_proxy.Base.Bytes.{sub_size}
use linux_highperf_proxy.Hpack.StaticTable.{Header, entry_size, static_table}

-- dynamic_ (newest first), dynamicSize_ and maxSize_.
pub record Table : Type 0 where
  pub dynamic : List Header
  pub dynamic_size : ℕ
  pub max_size : ℕ

-- Reset()
unfoldable pub init : Table
init = record { dynamic = []; dynamic_size = 0; max_size = 4096 }

unfoldable pub back : Header → List Header → Header
back e [] = e
back e (e' ∷ es) = back e' es

unfoldable pub pop_back : Header → List Header → List Header
pop_back e [] = []
pop_back e (e' ∷ es) = e ∷ pop_back e' es

-- while (dynamicSize_ > maxSize_ && !dynamic_.empty()) { dynamicSize_ -= back().size(); pop_back(); }
-- A round drops an entry, so as much fuel as entries is enough.
unfoldable pub evict : ℕ → Table → List Header → Table
evict fuel t [] = t
evict zero t (e ∷ es) = t
evict (suc fuel) t (e ∷ es) =
    let next = record t {
      dynamic = pop_back e es;
      dynamic_size = sub_size t.dynamic_size (entry_size (back e es));
    } in
    let rest = evict fuel next (pop_back e es) in if ltb t.max_size t.dynamic_size then rest else t

unfoldable pub evict_all : Table → Table
evict_all t = evict (length t.dynamic) t t.dynamic

-- UpdateMaxSize, which SetMaxDynamicTableSize calls.
unfoldable pub update_max_size : ℕ → Table → Table
update_max_size new_size t = evict_all (record t { max_size = new_size })

-- An entry larger than the table empties it.
unfoldable pub add_dynamic : Header → Table → Table
add_dynamic e t =
    if ltb t.max_size (entry_size e)
    then record t { dynamic = []; dynamic_size = 0 }
    else evict_all (record t {
      dynamic = e ∷ t.dynamic;
      dynamic_size = (t.dynamic_size + entry_size e) % 2 ^ 64;
    })

unfoldable pub get_by_index : ℕ → Table → Option Header
unfolding static_table
get_by_index idx t =
    if idx == 0
    then none
    else if leb idx 61
    then get_elem? static_table (idx - 1)
    else get_elem? t.dynamic (idx - 61 - 1)
