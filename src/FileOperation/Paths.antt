-- ===== src/FileOperation/Paths.antt =====
-- Where a chunk is stored, and which directories are made for it.
use distributed_file_system.Base.{
  ◌+◌, ◌≤◌, ◌≡◌, ◌≢◌, refl, ap, sym, ◌∙◌, true, none, some, [], ◌∷◌, ◌++◌, take, length, arith,
  Bytes, codes, NoSlash, All-append_right, take-all, take-append_left, length-append,
}
use distributed_file_system.Base.Int.{ℤ, IsInt32}
use distributed_file_system.Decimal.{show_int}
use distributed_file_system.Decimal.RoundTrip.{show_int-NoSlash, show_int-injective}
use distributed_file_system.Disk.{Disk}
use distributed_file_system.FileOperation.{
  full_path, dir_path, before_last_slash, make_parents, make_directories, create_directories,
}

-- The whole text of a path fits its buffer of 512 bytes.
abbrev pub Fits : Bytes → ℤ → Type 0
Fits filename chunk_id = length filename + length (show_int chunk_id) ≤ 505

pub full_path_whole :
    (filename : Bytes) (chunk_id : ℤ)
    → Fits filename chunk_id
    → full_path filename chunk_id ≡ codes "data/" ++ filename ++ b'/' ∷ show_int chunk_id
unfolding full_path
full_path_whole filename chunk_id h =
    take-all 511 (codes "data/" ++ filename ++ b'/' ∷ show_int chunk_id)
      (omega (arith, length-append filename (b'/' ∷ show_int chunk_id)))

-- Two texts with one last slash have the same parts.
last_slash_unique :
    (xs xs' ys ys' : Bytes)
    → NoSlash ys
    → NoSlash ys'
    → xs ++ b'/' ∷ ys ≡ xs' ++ b'/' ∷ ys'
    → (xs ≡ xs') × (ys ≡ ys')
last_slash_unique [] [] ys ys' h h' e = (refl, cc)
last_slash_unique [] (c ∷ xs') ys ys' h h' e =
    let e' : ys ≡ xs' ++ b'/' ∷ ys' = cc in
    absurd ((All-append_right (λ c. c ≢ b'/') xs' (b'/' ∷ ys') (rw e' at h)).0 refl)
last_slash_unique (c ∷ xs) [] ys ys' h h' e =
    let e' : ys' ≡ xs ++ b'/' ∷ ys = cc in
    absurd ((All-append_right (λ c. c ≢ b'/') xs (b'/' ∷ ys) (rw e' at h')).0 refl)
last_slash_unique (c ∷ xs) (d ∷ xs') ys ys' h h' e =
    let (same, rest) = last_slash_unique xs xs' ys ys' h h' (cc) in (cc, rest)

-- Different chunks have different texts as their paths, where these fit the buffer, also when a name
-- has slashes.
pub full_path-injective :
    (f g : Bytes) (a b : ℤ)
    → Fits f a
    → Fits g b
    → IsInt32 a
    → IsInt32 b
    → full_path f a ≡ full_path g b
    → (f ≡ g) × (a ≡ b)
full_path-injective f g a b hf hg ha hb e =
    let whole : codes "data/" ++ f ++ b'/' ∷ show_int a ≡ codes "data/" ++ g ++ b'/' ∷ show_int b =
      sym (full_path_whole f a hf) ∙ e ∙ full_path_whole g b hg in
    let (same, shown) =
      last_slash_unique f g (show_int a) (show_int b) (show_int-NoSlash a) (show_int-NoSlash b)
        (cc) in
    (same, show_int-injective a b ha hb shown)

-- With a name of 506 bytes or more the chunk id does not reach the path: every chunk of the file
-- has the same one.
pub full_path_truncated :
    (filename : Bytes) (a b : ℤ)
    → 506 ≤ length filename
    → full_path filename a ≡ full_path filename b
unfolding full_path
full_path_truncated filename a b h = cut a ∙ sym (cut b)
  where
    cut :
        (z : ℤ)
        → take 511 (codes "data/" ++ filename ++ b'/' ∷ show_int z)
          ≡ take 511 (codes "data/" ++ filename)
    cut z = take-append_left 511 (codes "data/" ++ filename) (b'/' ∷ show_int z) (omega arith)

before_last_slash-none : (ys : Bytes) → NoSlash ys → before_last_slash ys ≡ none
unfolding before_last_slash
before_last_slash-none [] h = refl
before_last_slash-none (c ∷ ys) (hc, h) = rw (before_last_slash-none ys h) (ground arith)

before_last_slash_lem : (xs ys : Bytes) → NoSlash ys → before_last_slash (xs ++ b'/' ∷ ys) ≡ some xs
unfolding before_last_slash
before_last_slash_lem [] ys h = rw (before_last_slash-none ys h) refl
before_last_slash_lem (c ∷ xs) ys h = rw (before_last_slash_lem xs ys h) refl

module _ (d : Disk) where
  make_parents_plain :
      (done rest : Bytes) (s : d.State) → NoSlash rest → make_parents d done rest s ≡ s
  unfolding make_parents
  make_parents_plain done [] s h = refl
  make_parents_plain done (c ∷ rest) s (hc, h) =
      make_parents_plain (c ∷ done) rest _ h ∙ ground arith

  create_directories_at :
      (path temp : Bytes) (s : d.State)
      → before_last_slash (take 511 path) ≡ some temp
      → create_directories d path s ≡ (true, make_directories d temp s)
  unfolding create_directories
  create_directories_at path temp s e = ground arith

  make_directories_plain :
      (filename : Bytes) (s : d.State)
      → NoSlash filename
      → make_directories d (codes "data/" ++ filename) s
        ≡ d.mkdir (codes "data/" ++ filename) (d.mkdir (codes "data") s)
  unfolding make_directories make_parents
  make_directories_plain filename s plain =
      ap (d.mkdir (codes "data/" ++ filename))
        (make_parents_plain (codes "/atad") filename (d.mkdir (codes "data") s) plain)

  -- For a plain file name the directories are data and the one of the file, in this order.
  pub create_directories_plain :
      (filename : Bytes) (chunk_id : ℤ) (s : d.State)
      → NoSlash filename
      → Fits filename chunk_id
      → create_directories d (full_path filename chunk_id) s
        ≡ (true, d.mkdir (dir_path filename) (d.mkdir (codes "data") s))
  unfolding dir_path
  create_directories_plain filename chunk_id s plain h =
      let whole : Bytes = codes "data/" ++ filename ++ b'/' ∷ show_int chunk_id in
      let all : take 511 whole ≡ whole =
        take-all 511 whole (omega (arith, length-append filename (b'/' ∷ show_int chunk_id))) in
      create_directories_at (full_path filename chunk_id) (codes "data/" ++ filename) s (
        ap (λ p. before_last_slash (take 511 p)) (full_path_whole filename chunk_id h)
        ∙ ap before_last_slash all
        ∙ before_last_slash_lem (codes "data/" ++ filename) (show_int chunk_id)
            (show_int-NoSlash chunk_id))
      ∙ ap (λ t. (true, t))
          (make_directories_plain filename s plain
            ∙ ap (λ p. d.mkdir p (d.mkdir (codes "data") s))
                (sym (take-all 511 (codes "data/" ++ filename) (omega arith))))
