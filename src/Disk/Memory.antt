-- ===== src/Disk/Memory.antt =====
-- A disk in memory, which meets the assumptions: a list of paths, each a directory or a file.
use distributed_file_system.Base.{
  ℕ, ◌≤◌, ◌≡◌, ◌≢◌, refl, ap, sym, subst, ◌∙◌, inl, inr, Bool, Bool-cases, true, false, ◌&&◌, ◌||◌,
  not, Option, none, some, List, [], ◌∷◌, ◌++◌, length, min, take, take-all, arith, Bytes,
  append_assoc, str_eq, str_eq_iff, str_eq_refl, ◌==◌, if◌then◌else◌,
}
use distributed_file_system.Disk.{Dirent, Disk, IsIn, Shrinks, IsPosix}

-- `none` is a directory, `some` the content of a file.
abbrev pub Files : Type 0
Files = List (Bytes × Option Bytes)

unfoldable pub lookup : Bytes → Files → Option (Option Bytes)
lookup p [] = none
lookup p ((q, held) ∷ s) = if str_eq p q then some held else lookup p s

unfoldable pub erase : Bytes → Files → Files
erase p [] = []
erase p ((q, held) ∷ s) = if str_eq p q then erase p s else (q, held) ∷ erase p s

-- What follows a prefix.
unfoldable pub strip : Bytes → Bytes → Option Bytes
strip [] s = some s
strip (c ∷ p) [] = none
strip (c ∷ p) (d ∷ s) = if c == d then strip p s else none

unfoldable pub plain : Bytes → Bool
plain [] = true
plain (c ∷ s) = not (c == b'/') && plain s

abbrev entry_of : Option Bytes → Option Bytes → List Dirent → List Dirent
entry_of none held rest = rest
entry_of (some name) none rest =
    if plain name then record { d_name = name; is_reg = false } ∷ rest else rest
entry_of (some name) (some c) rest =
    if plain name then record { d_name = name; is_reg = true } ∷ rest else rest

unfoldable pub children : Bytes → Files → List Dirent
unfolding strip plain
children p [] = []
children p ((q, held) ∷ s) = entry_of (strip (p ++ b'/' ∷ []) q) held (children p s)

abbrev is_some : Option Bytes → Bool
is_some none = false
is_some (some b) = true

unfoldable pub has_below : Bytes → Files → Bool
unfolding strip
has_below p [] = false
has_below p ((q, held) ∷ s) = is_some (strip (p ++ b'/' ∷ []) q) || has_below p s

abbrev file_content : Option (Option Bytes) → Option Bytes
file_content none = none
file_content (some held) = held

abbrev is_directory : Option (Option Bytes) → Option Bool
is_directory none = none
is_directory (some none) = some true
is_directory (some (some c)) = some false

abbrev content : Bytes → Files → Option Bytes
content p s = file_content (lookup p s)

abbrev access : Bytes → Files → Bool
access p s = elim (lookup p s) [ none ↦ false | some held ↦ true ]

abbrev lstat : Bytes → Files → Option Bool
lstat p s = is_directory (lookup p s)

-- A path names itself, if anything is there.
abbrev file_at : Bytes → Files → Option Bytes
file_at p s = elim (lookup p s) [ none ↦ none | some held ↦ some p ]

abbrev opendir : Bytes → Files → Option (List Dirent)
opendir p s = elim (lstat p s) [
  | none ↦ none
  | some directory ↦ if directory then some (children p s) else none
]

abbrev unlink : Bytes → Files → Option Files
unlink p s = elim (lookup p s) [
  | none ↦ none
  | some held ↦ elim held [ none ↦ none | some c ↦ some (erase p s) ]
]

abbrev rmdir : Bytes → Files → Option Files
rmdir p s = elim (lookup p s) [
  | none ↦ none
  | some held ↦ elim held [
    | none ↦ if has_below p s then none else some (erase p s)
    | some c ↦ none
  ]
]

abbrev mkdir : Bytes → Files → Files
mkdir p s = elim (lookup p s) [ none ↦ (p, none) ∷ s | some held ↦ s ]

abbrev fopen : Bytes → Files → Option Files
fopen p s = elim (lookup p s) [
  | none ↦ some ((p, some []) ∷ s)
  | some held ↦ elim held [ none ↦ none | some c ↦ some s ]
]

-- A write stops behind `room` bytes.
abbrev fwrite : (room : ℕ) → Bytes → Bytes → Files → ℕ × Files
fwrite room p b s = elim (content p s) [
  | none ↦ (0, s)
  | some c ↦ (min (length b) room, (p, some (c ++ take room b)) ∷ erase p s)
]

abbrev pub memory_of : (room : ℕ) → Disk
memory_of room = record {
  State = Files;
  Fd = Bytes;
  access = access;
  opendir = opendir;
  lstat = lstat;
  unlink = unlink;
  rmdir = rmdir;
  mkdir = mkdir;
  fopen = fopen;
  fwrite = fwrite room;
  fclose = λ p s. (true, s);
  open_rdonly = λ p s. elim (content p s) [ none ↦ none | some c ↦ some p ];
  fstat = λ p s. elim (content p s) [ none ↦ none | some c ↦ some (length c) ];
  read_fd = λ p n s. elim (content p s) [ none ↦ [] | some c ↦ take n c ];
  content = content;
  File = Bytes;
  file_at = file_at;
  stored = content;
}

-- A disk with room for the tests.
abbrev pub memory : Disk
memory = memory_of 1000

lookup-erase :
    (p q : Bytes) (s : Files) → lookup q (erase p s) ≡ (if str_eq p q then none else lookup q s)
unfolding lookup erase
lookup-erase p q [] = ground arith
lookup-erase p q ((r, held) ∷ s) =
    ground (arith, lookup-erase p q s, str_eq_iff p q, str_eq_iff p r, str_eq_iff q r)

strip-append : (p q : Bytes) → strip p (p ++ q) ≡ some q
unfolding strip
strip-append [] q = refl
strip-append (c ∷ p) q = ground (arith, strip-append p q)

lookup-has_below :
    (p q : Bytes) (s : Files) → has_below p s ≡ false → lookup (p ++ b'/' ∷ q) s ≡ none
unfolding lookup has_below
lookup-has_below p q [] h = refl
lookup-has_below p q ((r, held) ∷ s) h =
    ground (arith, str_eq_iff (p ++ b'/' ∷ q) r, lookup-has_below p q s, stripped)
  where
    stripped : strip (p ++ b'/' ∷ []) (p ++ b'/' ∷ q) ≡ some q
    stripped =
        ap (strip (p ++ b'/' ∷ [])) (sym (append_assoc p (b'/' ∷ []) q))
        ∙ strip-append (p ++ b'/' ∷ []) q

content-fopen_new :
    (p : Bytes) (s t : Files) → fopen p s ≡ some t → access p s ≡ false → content p t ≡ some []
unfolding lookup
content-fopen_new p s t e missing = ground (arith, str_eq_refl p)

content-fwrite :
    (room : ℕ) (p b c : Bytes) (s : Files)
    → content p s ≡ some c
    → content p (fwrite room p b s).1 ≡ some (c ++ take room b)
unfolding lookup
content-fwrite room p b c s found = ground (arith, str_eq_refl p)

content-written :
    (room : ℕ) (p b c : Bytes) (s t : Files)
    → content p s ≡ some c
    → fwrite room p b s ≡ (length b, t)
    → content p t ≡ some (c ++ b)
content-written room p b c s t found e =
    let all : length b ≤ room = ground arith in
    ap (content p) (sym (ap (λ w. w.1) e))
    ∙ content-fwrite room p b c s found
    ∙ ap (λ w. some (c ++ w)) (take-all room b all)

content-unlink_other :
    (p q : Bytes) (s t : Files)
    → unlink p s ≡ some t
    → file_at p s ≢ some q
    → content q t ≡ content q s
content-unlink_other p q s t e other = ground (arith, str_eq_iff p q, lookup-erase p q s)

content-rmdir : (p q : Bytes) (s t : Files) → rmdir p s ≡ some t → content q t ≡ content q s
content-rmdir p q s t e = ground (arith, str_eq_iff p q, lookup-erase p q s)

rmdir_empty : (p q : Bytes) (s t : Files) → rmdir p s ≡ some t → content (p ++ b'/' ∷ q) t ≡ none
rmdir_empty p q s t e =
    content-rmdir p (p ++ b'/' ∷ q) s t e ∙ ground (arith, lookup-has_below p q s)

IsIn-entry_of :
    (o held : Option Bytes) (entry : Dirent) (rest : List Dirent)
    → IsIn entry rest
    → IsIn entry (entry_of o held rest)
IsIn-entry_of none held entry rest m = m
IsIn-entry_of (some name) none entry rest m = elim (Bool-cases (plain name)) [
  | inl bare ↦ rw bare (inr m)
  | inr cut ↦ rw cut m
]
IsIn-entry_of (some name) (some c) entry rest m = elim (Bool-cases (plain name)) [
  | inl bare ↦ rw bare (inr m)
  | inr cut ↦ rw cut m
]

later :
    (entry e : Dirent) (rest rest' : List Dirent)
    → (IsIn entry rest → IsIn entry rest')
    → IsIn entry (e ∷ rest)
    → IsIn entry (e ∷ rest')
later entry e rest rest' f (inl same) = inl same
later entry e rest rest' f (inr m) = inr (f m)

entry_of-IsIn :
    (o held : Option Bytes) (entry : Dirent) (rest rest' : List Dirent)
    → (IsIn entry rest → IsIn entry rest')
    → IsIn entry (entry_of o held rest)
    → IsIn entry (entry_of o held rest')
entry_of-IsIn none held entry rest rest' f m = f m
entry_of-IsIn (some name) none entry rest rest' f m = elim (Bool-cases (plain name)) [
  | inl bare ↦ rw bare (later entry _ rest rest' f (rw bare at m))
  | inr cut ↦ rw cut (f (rw cut at m))
]
entry_of-IsIn (some name) (some c) entry rest rest' f m = elim (Bool-cases (plain name)) [
  | inl bare ↦ rw bare (later entry _ rest rest' f (rw bare at m))
  | inr cut ↦ rw cut (f (rw cut at m))
]

children-erase :
    (p q : Bytes) (entry : Dirent) (s : Files)
    → IsIn entry (children p (erase q s))
    → IsIn entry (children p s)
unfolding children erase
children-erase p q entry [] m = m
children-erase p q entry ((r, held) ∷ s) m = elim (Bool-cases (str_eq q r)) [
  | inl gone ↦ IsIn-entry_of _ held entry _ (children-erase p q entry s (rw gone at m))
  | inr kept ↦ entry_of-IsIn _ held entry _ _ (children-erase p q entry s) (rw kept at m)
]

file_at-rest : (p q f : Bytes) (s : Files) → file_at q (erase p s) ≡ some f → file_at q s ≡ some f
file_at-rest p q f s h = ground (arith, lookup-erase p q s)

IsEntry-erase :
    (p q : Bytes) (entry : Dirent) (es : List Dirent) (s : Files)
    → opendir q (erase p s) ≡ some es
    → IsIn entry es
    → (es' : List Dirent) × (opendir q s ≡ some es') × IsIn entry es'
IsEntry-erase p q entry es s opened m =
    let there : lstat q (erase p s) ≡ some true = ground arith in
    let same : children q (erase p s) ≡ es = ground arith in
    let before : lstat q s ≡ some true = ground (arith, lookup-erase p q s) in
    (
      children q s,
      rw (opendir, before) refl,
      children-erase q p entry s (subst (IsIn entry) (sym same) m),
    )

Shrinks-erase : (room : ℕ) (p : Bytes) (s : Files) → Shrinks (memory_of room) s (erase p s)
Shrinks-erase room p s = record {
  directories = λ q h. ground (arith, lookup-erase p q s);
  files = λ q f. file_at-rest p q f s;
  entries = λ q entry (es, opened, m). IsEntry-erase p q entry es s opened m;
}

unlink-erase : (p : Bytes) (s t : Files) → unlink p s ≡ some t → erase p s ≡ t
unlink-erase p s t e = ground arith

rmdir-erase : (p : Bytes) (s t : Files) → rmdir p s ≡ some t → erase p s ≡ t
rmdir-erase p s t e = ground arith

pub memory_of-IsPosix : (room : ℕ) → IsPosix (memory_of room)
memory_of-IsPosix room = record {
  access-content = λ p s c e. ground arith;
  content-fopen_new = content-fopen_new;
  content-written = λ p b c r s t u opened found wrote closed.
      subst (λ v. content p v ≡ some (c ++ b)) (ap (λ w. w.1) closed)
        (content-written room p b c s t found wrote);
  content-written_part = λ p b c r s opened found. (room, content-fwrite room p b c s found);
  fstat-open = λ p c s fd e opened. ground arith;
  read-open = λ p c s fd e opened. ground (arith, take-all (length c) c (omega arith));
  stored-unlink = λ p f s t. content-unlink_other p f s t;
  stored-rmdir = λ p f s t. content-rmdir p f s t;
  rmdir_empty = λ p q s t e plain. rmdir_empty p q s t e;
  shrinks-unlink =
      λ p s t e. subst (Shrinks (memory_of room) s) (unlink-erase p s t e) (Shrinks-erase room p s);
  shrinks-rmdir =
      λ p s t e. subst (Shrinks (memory_of room) s) (rmdir-erase p s t e) (Shrinks-erase room p s);
}

pub memory-IsPosix : IsPosix memory
memory-IsPosix = memory_of-IsPosix 1000
