-- ===== src/StorageUnit/Rotation.antt =====
-- `increment_index_and_return_addr`, called time after time.
use native.Mathlib.Nat.{zero-mod, mod-add-mod, mod-lt}
use distributed_file_system.Base.{
  ℕ, zero, suc, ◌+◌, ◌%◌, ◌<◌, ◌≡◌, refl, ap, sym, ◌∙◌, false, Option, none, some, List, [], ◌∷◌,
  length, get_elem?-total, arith, Bytes, ◌==◌, ◌≢◌, All, subst,
}
use distributed_file_system.Base.Int.{ℤ, pos, negsuc}
use distributed_file_system.StorageUnit.{
  ConnectionData, TcpStorage, next_index, address_at, increment_index_and_return_addr,
}

-- Calls one after the other.
unfoldable pub addresses : ℕ → TcpStorage → List (Option Bytes)
addresses zero s = []
addresses (suc n) s = let (addr, t) = increment_index_and_return_addr s in addr ∷ addresses n t

-- The addresses from an index on.
unfoldable pub going_round : ℕ → (index : ℕ) → List ConnectionData → List (Option Bytes)
unfolding address_at
going_round zero index cs = []
going_round (suc n) index cs =
    address_at (pos (index % length cs)) cs ∷ going_round n (index + 1) cs

-- The index of the next call.
abbrev pub first_index : ℤ → ℕ
first_index (negsuc n) = 0
first_index (pos n) = n + 1

next_index-first_index :
    (index : ℤ) (connections : ℕ)
    → next_index index connections ≡ pos (first_index index % connections)
unfolding next_index
next_index-first_index (negsuc n) connections = ap pos (sym (zero-mod connections))
next_index-first_index (pos n) connections = refl

increment_lem :
    (s : TcpStorage)
    → 0 < length s.connections
    → let index = pos (first_index s.index_to_write % length s.connections) in
      increment_index_and_return_addr s
      ≡ (address_at index s.connections, record s { index_to_write = index })
unfolding increment_index_and_return_addr
increment_lem s some_connections =
    let busy : (length s.connections == 0) ≡ false = ground arith in
    rw busy (
      ap (λ index. (address_at index s.connections, record s { index_to_write = index }))
        (next_index-first_index s.index_to_write (length s.connections)))

going_round_mod :
    (n i j : ℕ) (cs : List ConnectionData)
    → i % length cs ≡ j % length cs
    → going_round n i cs ≡ going_round n j cs
unfolding going_round
going_round_mod zero i j cs e = refl
going_round_mod (suc n) i j cs e =
    let next : (i + 1) % length cs ≡ (j + 1) % length cs =
      sym (mod-add-mod i (length cs) 1)
      ∙ ap (λ k. (k + 1) % length cs) e
      ∙ mod-add-mod j (length cs) 1 in
    rw e
      (ap (◌∷◌ (address_at (pos (j % length cs)) cs)) (going_round_mod n (i + 1) (j + 1) cs next))

addresses_turn :
    (n : ℕ) (s : TcpStorage)
    → 0 < length s.connections
    → addresses n s ≡ going_round n (first_index s.index_to_write) s.connections
unfolding addresses going_round
addresses_turn zero s h = refl
addresses_turn (suc n) s h =
    let i = first_index s.index_to_write in
    let t : TcpStorage = record s { index_to_write = pos (i % length s.connections) } in
    rw (increment_lem s h) (
      ap (◌∷◌ (address_at (pos (i % length s.connections)) s.connections)) (
        addresses_turn n t h
        ∙ going_round_mod n (i % length s.connections + 1) (i + 1) s.connections
            (mod-add-mod i (length s.connections) 1)))

given :
    (index : ℕ) (cs : List ConnectionData)
    → 0 < length cs
    → address_at (pos (index % length cs)) cs ≢ none
unfolding address_at
given index cs h missing =
    let (c, e) = get_elem?-total cs (index % length cs) (mod-lt index h) in
    let found : some c.ip ≡ none =
      sym (ap (λ o. elim o [ none ↦ none | some k ↦ some k.ip ]) e) ∙ missing in
    absurd cc

going_round_given :
    (n index : ℕ) (cs : List ConnectionData)
    → 0 < length cs
    → All (λ a. a ≢ none) (going_round n index cs)
unfolding going_round
going_round_given zero index cs h = tt
going_round_given (suc n) index cs h = (given index cs h, going_round_given n (index + 1) cs h)

-- With at least one connection, calls one after the other give the addresses of the connections in
-- turn, none missing, from the one after the index on and from the first again behind the last,
-- whatever the index is: also where connections have been removed since.
pub addresses-going_round :
    (n : ℕ) (s : TcpStorage)
    → 0 < length s.connections
    → (addresses n s ≡ going_round n (first_index s.index_to_write) s.connections)
      × All (λ a. a ≢ none) (addresses n s)
addresses-going_round n s h =
    let turn = addresses_turn n s h in
    (
      turn,
      subst (All (λ a. a ≢ none)) (sym turn)
          (going_round_given n (first_index s.index_to_write) s.connections h),
    )
