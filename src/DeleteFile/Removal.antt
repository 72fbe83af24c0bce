-- ===== src/DeleteFile/Removal.antt =====
-- `remove_directory`: its depth, and what it changes on the disk.
use distributed_file_system.Base.{
  ℕ, zero, suc, ◌+◌, ◌-◌, ◌≤◌, ◌<◌, ◌≡◌, ◌≢◌, refl, ap, sym, ◌∙◌, inl, inr, Bool, Bool-cases, true,
  false, Option-cases, none, some, List, [], ◌∷◌, ◌++◌, take, length, arith, Bytes, NoSlash,
  append_assoc, append-nil, length-append, take-append,
}
use distributed_file_system.Disk.{Dirent, Disk, IsIn, IsEntry, Shrinks, IsPosix}
use distributed_file_system.FileOperation.{is_listed}
use distributed_file_system.DeleteFile.{
  Outcome, removed, failed, too_deep, entry_path, remove_known, remove_entry, remove_entries,
  remove_last, remove_directory,
}

-- A removal ends, in a state of the predicate.
abbrev pub Ends : {S : Type 0} → (S → Type 0) → Outcome S → Type 0
Ends P (removed t) = P t
Ends P (failed t) = P t
Ends P too_deep = ⊥

-- An entry's path extends the path of its directory, and is longer unless it was cut.
pub entry_path_extends :
    (path name : Bytes)
    → length path ≤ 1000
    → (r : Bytes) × (entry_path path name ≡ path ++ b'/' ∷ r)
unfolding entry_path
entry_path_extends path name h =
    let e : 1023 - length path ≡ suc (1022 - length path) = omega arith in
    (
      take (1022 - length path) name,
      take-append 1023 path (b'/' ∷ name) (omega arith) ∙ ap (λ n. path ++ take n (b'/' ∷ name)) e,
    )

module _ (d : Disk) where
  -- The directories that a removal of `root` comes to, as it spells them: the root, and each entry
  -- other than "." and ".." that `lstat`, which follows no link, knows as a directory.
  pub data IsReached (root : Bytes) (start : d.State) : Bytes → Type 0 where
    at_root : IsReached root start root
    below :
        (path : Bytes) (entry : Dirent)
        → IsReached root start path
        → IsEntry d path entry start
        → is_listed entry.d_name ≡ true
        → d.lstat (entry_path path entry.d_name) start ≡ some true
        → IsReached root start (entry_path path entry.d_name)

  -- None of them has a path of more than 1000 bytes.
  abbrev pub IsShallow : (root : Bytes) → d.State → Type 0
  IsShallow root start = (p : Bytes) → IsReached root start p → length p ≤ 1000

  -- No entry of them is the file.
  abbrev pub IsApart : (root : Bytes) → d.State → d.File → Type 0
  IsApart root start f =
      (p : Bytes) (entry : Dirent)
      → IsReached root start p
      → IsEntry d p entry start
      → is_listed entry.d_name ≡ true
      → d.file_at (entry_path p entry.d_name) start ≢ some f

  -- What a removal of `root` keeps: it makes nothing, and leaves the files that are apart.
  pub record Keeps (root : Bytes) (start t : d.State) : Type 0 where
    pub shrinks : Shrinks d start t
    pub apart : (f : d.File) → IsApart root start f → d.stored f t ≡ d.stored f start

  -- They are spelled as extensions of the root.
  pub IsReached-extends :
      (root : Bytes) (start : d.State)
      → IsShallow root start
      → (p : Bytes) → IsReached root start p
      → (r : Bytes) × (p ≡ root ++ r)
  IsReached-extends root start shallow p at_root = ([], sym (append-nil root))
  IsReached-extends root start shallow p (below path entry reached is_entry listed found) =
      let (r, e) = IsReached-extends root start shallow path reached in
      let (r', e') = entry_path_extends path entry.d_name (shallow path reached) in
      (r ++ b'/' ∷ r', e' ∙ ap (λ q. q ++ b'/' ∷ r') e ∙ append_assoc root r (b'/' ∷ r'))

  Shrinks-trans : (s t u : d.State) → Shrinks d s t → Shrinks d t u → Shrinks d s u
  Shrinks-trans s t u h k = record {
    directories = λ q e. h.directories q (k.directories q e);
    files = λ q f e. h.files q f (k.files q f e);
    entries = λ q entry e. h.entries q entry (k.entries q entry e);
  }

  Keeps-refl : (root : Bytes) (s : d.State) → Keeps root s s
  Keeps-refl root s = record {
    shrinks = record { directories = λ q e. e; files = λ q f e. e; entries = λ q entry e. e };
    apart = λ f a. refl;
  }

module _ (d : Disk) (x : IsPosix d) where
  module _ (root : Bytes) (start : d.State) (shallow : IsShallow d root start) where
    Keeps-unlink :
        (path : Bytes) (entry : Dirent) (s t : d.State)
        → IsReached d root start path
        → IsEntry d path entry start
        → is_listed entry.d_name ≡ true
        → Keeps d root start s
        → d.unlink (entry_path path entry.d_name) s ≡ some t
        → Keeps d root start t
    Keeps-unlink path entry s t reached is_entry listed k gone = record {
      shrinks = Shrinks-trans d start s t k.shrinks (x.shrinks-unlink _ s t gone);
      apart = λ f a.
          x.stored-unlink _ f s t gone
            (λ e. a path entry reached is_entry listed (k.shrinks.files _ f e))
          ∙ k.apart f a;
    }

    Keeps-rmdir :
        (path : Bytes) (s t : d.State)
        → Keeps d root start s
        → d.rmdir path s ≡ some t
        → Keeps d root start t
    Keeps-rmdir path s t k gone = record {
      shrinks = Shrinks-trans d start s t k.shrinks (x.shrinks-rmdir path s t gone);
      apart = λ f a. x.stored-rmdir path f s t gone ∙ k.apart f a;
    }

    module _ (recurse : Bytes → d.State → Outcome d.State) (path : Bytes)
        (reached : IsReached d root start path)
        (sub : (p : Bytes) (s : d.State)
          → IsReached d root start p
          → length path < length p
          → Keeps d root start s
          → Ends (Keeps d root start) (recurse p s)) where
      remove_known-Ends :
          (entry : Dirent) (directory : Bool) (s : d.State)
          → IsEntry d path entry start
          → is_listed entry.d_name ≡ true
          → Keeps d root start s
          → d.lstat (entry_path path entry.d_name) s ≡ some directory
          → Ends
              (Keeps d root start)
              (remove_known d recurse (entry_path path entry.d_name) directory s)
      unfolding remove_known
      remove_known-Ends entry true s is_entry listed k found =
          let (r, e) = entry_path_extends path entry.d_name (shallow path reached) in
          sub (entry_path path entry.d_name) s
            (below path entry reached is_entry listed (k.shrinks.directories _ found))
            (omega (arith, ap length e, length-append path (b'/' ∷ r))) k
      remove_known-Ends entry false s is_entry listed k found =
          elim (Option-cases (d.unlink (entry_path path entry.d_name) s)) [
            | inl missing ↦ rw (missing, Ends) k
            | inr (t, gone) ↦
                rw (gone, Ends) (Keeps-unlink path entry s t reached is_entry listed k gone)
          ]

      remove_entry-Ends :
          (entry : Dirent) (s : d.State)
          → IsEntry d path entry start
          → Keeps d root start s
          → Ends (Keeps d root start) (remove_entry d recurse path entry s)
      unfolding remove_entry
      remove_entry-Ends entry s is_entry k = elim (Bool-cases (is_listed entry.d_name)) [
        | inr skipped ↦ rw skipped k
        | inl listed ↦ elim (Option-cases (d.lstat (entry_path path entry.d_name) s)) [
          | inl missing ↦ rw (listed, missing) k
          | inr (directory, found) ↦
              rw (listed, found) (remove_known-Ends entry directory s is_entry listed k found)
        ]
      ]

      remove_entries_rest :
          (rest : List Dirent) (r : Outcome d.State)
          → Ends (Keeps d root start) r
          → ((t : d.State)
              → Keeps d root start t
              → Ends (Keeps d root start) (remove_entries d recurse path rest t))
          → Ends (Keeps d root start) (elim r [
            | removed t ↦ remove_entries d recurse path rest t
            | failed t ↦ failed t
            | too_deep ↦ too_deep
          ])
      remove_entries_rest rest (removed t) e h = h t e
      remove_entries_rest rest (failed t) e h = e
      remove_entries_rest rest too_deep e h = e

      remove_entries-Ends :
          (entries : List Dirent) (s : d.State)
          → ((entry : Dirent) → IsIn entry entries → IsEntry d path entry start)
          → Keeps d root start s
          → Ends (Keeps d root start) (remove_entries d recurse path entries s)
      unfolding remove_entries
      remove_entries-Ends [] s all k = k
      remove_entries-Ends (entry ∷ rest) s all k =
          remove_entries_rest rest (remove_entry d recurse path entry s)
            (remove_entry-Ends entry s (all entry (inl refl)) k)
            (λ t. remove_entries-Ends rest t (λ e m. all e (inr m)))

    remove_last-Ends :
        (path : Bytes) (r : Outcome d.State)
        → Ends (Keeps d root start) r
        → Ends (Keeps d root start) (remove_last d path r)
    unfolding remove_last
    remove_last-Ends path (removed t) k = elim (Option-cases (d.rmdir path t)) [
      | inl missing ↦ rw (missing, Ends) k
      | inr (u, gone) ↦ rw (gone, Ends) (Keeps-rmdir path t u k gone)
    ]
    remove_last-Ends path (failed t) k = k
    remove_last-Ends path too_deep k = k

    remove_directory_below :
        (depth : ℕ) (path : Bytes) (s : d.State)
        → IsReached d root start path
        → 1000 < length path + depth
        → Keeps d root start s
        → Ends (Keeps d root start) (remove_directory d depth path s)
    unfolding remove_directory
    remove_directory_below zero path s reached deep k = absurd (omega (arith, shallow path reached))
    remove_directory_below (suc depth) path s reached deep k =
        elim (Option-cases (d.opendir path s)) [
          | inl missing ↦ rw (missing, Ends) k
          | inr (entries, opened) ↦
              rw (opened, Ends)
                (remove_last-Ends path _ (
                  remove_entries-Ends (remove_directory d depth) path reached
                    (λ p t r longer k'. remove_directory_below depth p t r (omega arith) k') entries
                    s (λ entry m. k.shrinks.entries path entry (entries, opened, m)) k))
        ]

  -- Let none of the directories that the removal comes to, from the start state of the disk on, have
  -- a path of more than 1000 bytes. Then the recursion is never deeper than 1001 less the length of
  -- the path. The removal ends, makes nothing, and whether it succeeds or fails it leaves what is
  -- stored in every file that is not an entry of one of those directories.
  pub remove_directory-Ends :
      (depth : ℕ) (path : Bytes) (s : d.State)
      → 1000 < length path + depth
      → IsShallow d path s
      → Ends (Keeps d path s) (remove_directory d depth path s)
  remove_directory-Ends depth path s deep shallow =
      remove_directory_below path s shallow depth path s at_root deep (Keeps-refl d path s)

  remove_last-removed :
      (path r : Bytes) (t : d.State) (o : Outcome d.State)
      → NoSlash r
      → remove_last d path o ≡ removed t
      → d.content (path ++ b'/' ∷ r) t ≡ none
  unfolding remove_last
  remove_last-removed path r t (removed u) plain e = elim (Option-cases (d.rmdir path u)) [
    | inl missing ↦ ground arith
    | inr (w, gone) ↦
        let same : w ≡ t = ground arith in rw (← same) (x.rmdir_empty path r u w gone plain)
  ]
  remove_last-removed path r t (failed u) plain e = cc
  remove_last-removed path r t too_deep plain e = cc

  -- A directory that was removed has no file left.
  pub remove_directory-removed :
      (depth : ℕ) (path r : Bytes) (s t : d.State)
      → NoSlash r
      → remove_directory d depth path s ≡ removed t
      → d.content (path ++ b'/' ∷ r) t ≡ none
  unfolding remove_directory
  remove_directory-removed zero path r s t plain e = cc
  remove_directory-removed (suc depth) path r s t plain e = elim (Option-cases (d.opendir path s)) [
    | inl missing ↦ ground arith
    | inr (entries, opened) ↦
        remove_last-removed path r t _ plain (rw (opened, remove_directory) at e)
  ]
