-- ===== src/HttpHandlers/ServerToWrite.antt =====
-- The addresses that `return_server_to_write_chunk` answers.
use mathlib.Core.List.{Permᴰ}
use distributed_file_system.Base.{
  ℕ, zero, suc, ◌<◌, ◌≡◌, refl, ap, sym, ◌∙◌, Bool-cases, inl, inr, true, ◌||◌, Option, none, some,
  List, [], ◌∷◌, ◌++◌, length, arith, Bytes, str_eq_iff, str_eq_refl, subst, ◌≢◌,
}
use distributed_file_system.Base.Int.{ℤ, pos}
use distributed_file_system.StorageUnit.{TcpStorage, contains, increment_index_and_return_addr}
use distributed_file_system.StorageUnit.Rotation.{
  addresses, going_round, first_index, addresses-going_round,
}
use distributed_file_system.HttpHandlers.{
  same_address, set_contains, set_insert, rounds_of, write_loop, push_some,
  return_server_to_write_chunk,
}

-- A set gives each of its elements once, in some order.
abbrev pub IsOrder : (List (Option Bytes) → List (Option Bytes)) → Type 0
IsOrder order = (set : List (Option Bytes)) → Permᴰ (order set) set

set_contains-perm :
    (x : Option Bytes) {xs ys : List (Option Bytes)}
    → Permᴰ xs ys
    → set_contains x xs ≡ set_contains x ys
unfolding set_contains
set_contains-perm x Permᴰ.nil = refl
set_contains-perm x (Permᴰ.cons e p) = rw (e, set_contains-perm x p) refl
set_contains-perm x (Permᴰ.swap e f) = rw (e, f) (ground arith)
set_contains-perm x (Permᴰ.trans p q) = set_contains-perm x p ∙ set_contains-perm x q

push_some-contains :
    (a : Bytes) (set : List (Option Bytes)) → contains a (push_some set) ≡ set_contains (some a) set
unfolding contains push_some set_contains same_address
push_some-contains a [] = refl
push_some-contains a (none ∷ set) = push_some-contains a set
push_some-contains a (some b ∷ set) = rw (push_some-contains a set) refl

set_contains-append :
    (x y : Option Bytes) (set : List (Option Bytes))
    → set_contains x (set ++ y ∷ []) ≡ (set_contains x set || same_address y x)
unfolding set_contains
set_contains-append x y [] = ground arith
set_contains-append x y (z ∷ set) = ground (arith, set_contains-append x y set)

same_address_sound : (x y : Option Bytes) → same_address x y ≡ true → x ≡ y
unfolding same_address
same_address_sound none none e = refl
same_address_sound none (some b) e = absurd cc
same_address_sound (some a) none e = absurd cc
same_address_sound (some a) (some b) e = ap some (ground (arith, str_eq_iff a b))

set_contains-insert :
    (x y : Option Bytes) (set : List (Option Bytes))
    → set_contains x (set_insert y set) ≡ (set_contains x set || same_address y x)
unfolding set_insert
set_contains-insert x y set = elim (Bool-cases (set_contains y set)) [
  | inr new ↦ rw new (set_contains-append x y set)
  | inl known ↦ rw known (elim (Bool-cases (same_address y x)) [
    | inl same ↦
        rw same
          (ap (λ z. set_contains z set) (sym (same_address_sound y x same)) ∙ known ∙ ground arith)
    | inr other ↦ rw other (ground arith)
  ])
]

write_loop-addresses :
    (x : Option Bytes) (rounds : ℕ) (set : List (Option Bytes)) (s : TcpStorage)
    → set_contains x (write_loop rounds set s).0
      ≡ (set_contains x set || set_contains x (addresses rounds s))
unfolding write_loop addresses set_contains
write_loop-addresses x zero set s = ground arith
write_loop-addresses x (suc rounds) set s =
    let (addr, s') = increment_index_and_return_addr s in
    write_loop-addresses x rounds (set_insert addr set) s'
    ∙ rw (set_contains-insert x addr set) (ground arith)

module _ (order : List (Option Bytes) → List (Option Bytes)) (is_order : IsOrder order) where
  answer-addresses :
      (count : ℤ) (s : TcpStorage) (a : Bytes)
      → contains a (return_server_to_write_chunk order count s).0
        ≡ set_contains (some a) (addresses (rounds_of count) s)
  unfolding return_server_to_write_chunk set_contains
  answer-addresses count s a =
      let set = (write_loop (rounds_of count) [] s).0 in
      push_some-contains a (order set)
      ∙ set_contains-perm (some a) (is_order set)
      ∙ write_loop-addresses (some a) (rounds_of count) [] s

  first_given :
      (xs : List (Option Bytes)) (x : Option Bytes) (res : List Bytes)
      → x ≢ none
      → ((a : Bytes) → contains a res ≡ set_contains (some a) (x ∷ xs))
      → res ≢ []
  unfolding contains set_contains same_address
  first_given xs none res given same empty = given refl
  first_given xs (some b) res given same empty =
      let here : contains b [] ≡ true =
        subst (λ r. contains b r ≡ true) empty (same b ∙ rw (str_eq_refl b) refl) in
      cc

-- With at least one connection and a replication count of at least one, the master answers the
-- addresses that as many calls of `increment_index_and_return_addr` give, in whatever order the set
-- gives them: exactly those of the connections in turn behind the index, and at least one.
pub return_server_to_write_chunk-going_round :
    (order : List (Option Bytes) → List (Option Bytes)) (is_order : IsOrder order) (n : ℕ)
    (s : TcpStorage)
    → 0 < length s.connections
    → let answer = (return_server_to_write_chunk order (pos (suc n)) s).0 in
      ((a : Bytes)
        → contains a answer
          ≡ set_contains
              (some a)
              (going_round (suc n) (first_index s.index_to_write) s.connections))
      × (answer ≢ [])
return_server_to_write_chunk-going_round order is_order n s some_connection =
    let (turn, given) = addresses-going_round (suc n) s some_connection in
    let round : (a : Bytes)
        → contains a (return_server_to_write_chunk order (pos (suc n)) s).0
          ≡ set_contains (some a)
              (going_round (suc n) (first_index s.index_to_write) s.connections) =
      λ a. answer-addresses order is_order (pos (suc n)) s a ∙ ap (set_contains (some a)) turn in
    (
      round,
      unfold addresses in
          first_given order is_order _ _ _ given.0
            (answer-addresses order is_order (pos (suc n)) s),
    )
