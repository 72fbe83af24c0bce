-- ===== src/TcpHandler/Others.antt =====
-- Among the tasks of `accept_connections` only one has an id.
use distributed_file_system.Base.{
  ℕ, zero, suc, ◌≡◌, refl, subst, false, some, List, [], ◌∷◌, ◌++◌, get_elem?, set, All, All-append,
  arith, Bytes, str_eq, ◌==◌,
}
use distributed_file_system.TcpHandler.Tasks.{Task}

-- No other task has the id: the ids are random UUIDs.
abbrev pub AreOther : Bytes → List Task → Type 0
AreOther id = All (λ t. str_eq t.connection_id id ≡ false)

abbrev pub AreApart : Bytes → ℕ → List Task → Type 0
AreApart id k [] = Unit {0}
AreApart id zero (t ∷ ts) = AreOther id ts
AreApart id (suc k) (t ∷ ts) = (str_eq t.connection_id id ≡ false) × AreApart id k ts

pub get_elem?-append_left :
    (ts : List Task) (u : Task) (k : ℕ) (t : Task)
    → get_elem? ts k ≡ some t
    → get_elem? (ts ++ u ∷ []) k ≡ some t
get_elem?-append_left [] u k t e = absurd cc
get_elem?-append_left (x ∷ ts) u zero t e = e
get_elem?-append_left (x ∷ ts) u (suc k) t e = get_elem?-append_left ts u k t e

pub get_elem?-set_here :
    (ts : List Task) (k : ℕ) (t u : Task)
    → get_elem? ts k ≡ some t
    → get_elem? (set ts k u) k ≡ some u
get_elem?-set_here [] k t u e = absurd cc
get_elem?-set_here (x ∷ ts) zero t u e = refl
get_elem?-set_here (x ∷ ts) (suc k) t u e = get_elem?-set_here ts k t u e

pub get_elem?-set_there :
    (ts : List Task) (j k : ℕ) (u : Task)
    → (j == k) ≡ false
    → get_elem? (set ts j u) k ≡ get_elem? ts k
get_elem?-set_there [] j k u apart = refl
get_elem?-set_there (x ∷ ts) zero zero u apart = absurd (ground arith)
get_elem?-set_there (x ∷ ts) zero (suc k) u apart = refl
get_elem?-set_there (x ∷ ts) (suc j) zero u apart = refl
get_elem?-set_there (x ∷ ts) (suc j) (suc k) u apart = get_elem?-set_there ts j k u (ground arith)

pub AreOther-get_elem? :
    (id : Bytes) (ts : List Task) (j : ℕ) (u : Task)
    → AreOther id ts
    → get_elem? ts j ≡ some u
    → str_eq u.connection_id id ≡ false
AreOther-get_elem? id [] j u h e = absurd cc
AreOther-get_elem? id (x ∷ ts) zero u (hx, h) e =
    let same : x ≡ u = cc in subst (λ v. str_eq v.connection_id id ≡ false) same hx
AreOther-get_elem? id (x ∷ ts) (suc j) u (hx, h) e = AreOther-get_elem? id ts j u h e

pub AreOther-set :
    (id : Bytes) (ts : List Task) (j : ℕ) (u : Task)
    → AreOther id ts
    → str_eq u.connection_id id ≡ false
    → AreOther id (set ts j u)
AreOther-set id [] j u h hu = tt
AreOther-set id (x ∷ ts) zero u (hx, h) hu = (hu, h)
AreOther-set id (x ∷ ts) (suc j) u (hx, h) hu = (hx, AreOther-set id ts j u h hu)

pub AreApart-get_elem? :
    (id : Bytes) (k : ℕ) (ts : List Task) (j : ℕ) (u : Task)
    → AreApart id k ts
    → (j == k) ≡ false
    → get_elem? ts j ≡ some u
    → str_eq u.connection_id id ≡ false
AreApart-get_elem? id k [] j u h apart e = absurd cc
AreApart-get_elem? id zero (x ∷ ts) zero u h apart e = absurd (ground arith)
AreApart-get_elem? id zero (x ∷ ts) (suc j) u h apart e = AreOther-get_elem? id ts j u h e
AreApart-get_elem? id (suc k) (x ∷ ts) zero u (hx, h) apart e =
    let same : x ≡ u = cc in subst (λ v. str_eq v.connection_id id ≡ false) same hx
AreApart-get_elem? id (suc k) (x ∷ ts) (suc j) u (hx, h) apart e =
    AreApart-get_elem? id k ts j u h (ground arith) e

pub AreApart-set_here :
    (id : Bytes) (k : ℕ) (ts : List Task) (u : Task) → AreApart id k ts → AreApart id k (set ts k u)
AreApart-set_here id k [] u h = tt
AreApart-set_here id zero (x ∷ ts) u h = h
AreApart-set_here id (suc k) (x ∷ ts) u (hx, h) = (hx, AreApart-set_here id k ts u h)

pub AreApart-set_there :
    (id : Bytes) (k : ℕ) (ts : List Task) (j : ℕ) (u : Task)
    → AreApart id k ts
    → (j == k) ≡ false
    → str_eq u.connection_id id ≡ false
    → AreApart id k (set ts j u)
AreApart-set_there id k [] j u h apart hu = tt
AreApart-set_there id zero (x ∷ ts) zero u h apart hu = absurd (ground arith)
AreApart-set_there id zero (x ∷ ts) (suc j) u h apart hu = AreOther-set id ts j u h hu
AreApart-set_there id (suc k) (x ∷ ts) zero u (hx, h) apart hu = (hu, h)
AreApart-set_there id (suc k) (x ∷ ts) (suc j) u (hx, h) apart hu =
    (hx, AreApart-set_there id k ts j u h (ground arith) hu)

pub AreApart-append :
    (id : Bytes) (k : ℕ) (ts : List Task) (t u : Task)
    → get_elem? ts k ≡ some t
    → AreApart id k ts
    → str_eq u.connection_id id ≡ false
    → AreApart id k (ts ++ u ∷ [])
AreApart-append id k [] t u e h hu = absurd cc
AreApart-append id zero (x ∷ ts) t u e h hu =
    All-append (λ v. str_eq v.connection_id id ≡ false) ts (u ∷ []) h (hu, tt)
AreApart-append id (suc k) (x ∷ ts) t u e (hx, h) hu = (hx, AreApart-append id k ts t u e h hu)
