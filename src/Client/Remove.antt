-- ===== src/Client/Remove.antt =====
-- Which hosts `deleteFile` asks.
use distributed_file_system.Base.{
  ℕ, suc, ◌≡◌, refl, ap, Bool, Bool-cases, inl, inr, true, false, ◌&&◌, Option, Option-cases, none,
  some, List, [], ◌∷◌, map, take, length, Bytes, ◌==◌,
}
use distributed_file_system.Decimal.{show_nat}
use distributed_file_system.Client.{remove_loop, delete_file}
use distributed_file_system.Client.RoundTrip.{count_up}

-- The indices of a list as text.
abbrev pub indices : (start : ℕ) → List Bytes → List Bytes
indices start locations = map show_nat (count_up start (length locations))

-- Whether every host answers 200.
abbrev pub is_ok : Option ℕ → Bool
is_ok none = false
is_ok (some status) = status == 200

abbrev pub are_ok : ((host : Bytes) → Option ℕ) → List Bytes → Bool
are_ok delete [] = true
are_ok delete (host ∷ hosts) = is_ok (delete host) && are_ok delete hosts

remove_loop-indices :
    (delete : (host : Bytes) → Option ℕ) (i : ℕ) (locations : List Bytes)
    → let (result, asked) = remove_loop delete i locations in
      (result ≡ are_ok delete (indices i locations))
      × (asked ≡ take (length asked) (indices i locations))
unfolding remove_loop
remove_loop-indices delete i [] = (refl, refl)
remove_loop-indices delete i (location ∷ locations) =
    let (ok, first) = remove_loop-indices delete (suc i) locations in
    elim (Option-cases (delete (show_nat i))) [
      | inl failed ↦ rw (remove_loop, failed) (refl, refl)
      | inr (status, answered) ↦ elim (Bool-cases (status == 200)) [
        | inl done ↦ rw (remove_loop, answered, done) (ok, ap (◌∷◌ (show_nat i)) first)
        | inr refused ↦ rw (remove_loop, answered, refused) (refl, refl)
      ]
    ]

-- `deleteFile` asks hosts that are named by the indices of the locations, not the locations: a first
-- part of them, and it returns true exactly if each of those hosts answers 200.
pub delete_file-indices :
    (locations : List Bytes) (delete : (host : Bytes) → Option ℕ)
    → let (result, asked) = delete_file (some locations) delete in
      (result ≡ are_ok delete (indices 0 locations))
      × (asked ≡ take (length asked) (indices 0 locations))
unfolding delete_file
delete_file-indices locations delete = remove_loop-indices delete 0 locations
