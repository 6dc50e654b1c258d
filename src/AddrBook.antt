-- ===== src/AddrBook.antt =====
-- The two maps, by id and by address, that internal/peering/udp.go keeps of its peers and
-- internal/transport/udp.go of its clients. A pointer in the second is the id that it leads to.
pub mod Laws
pub mod Names
use dwcs.Base.{String, List, [], ◌∷◌}
use dwcs.GoMap.{GoMap, insert, delete}

pub record Book {ℓ} (V : Type ℓ) : Type ℓ where
  pub by_id : GoMap V
  pub by_addr : GoMap String

module _ {ℓ} {V : Type ℓ} where
  abbrev pub empty : Book V
  empty = record { by_id = []; by_addr = [] }

  -- What a new entry is stored under.
  unfoldable pub enter : String → String → V → Book V → Book V
  enter id addr v b = record { by_id = insert id v b.by_id; by_addr = insert addr id b.by_addr }

  -- The loop of evictExpired that deletes the entries.
  unfoldable pub drop_all : (V → String) → (V → String) → List V → Book V → Book V
  drop_all ident addr [] b = b
  drop_all ident addr (v ∷ vs) b =
      drop_all ident addr vs
        (record { by_id = delete (ident v) b.by_id; by_addr = delete (addr v) b.by_addr })
